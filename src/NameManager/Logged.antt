-- ===== src/NameManager/Logged.antt =====
-- The name that the worker finds for the thread id of an entry, on Linux
-- (include/oneplog/name_manager.hpp and include/oneplog/logger.hpp).
use oneplog.Prelude.{
  ℕ, ◌<◌, ◌≤◌, ◌≡◌, refl, ◌∙◌, sym, ap, true, List, if◌then◌else◌, ltb, Bool-cases, inl, inr, arith,
}
use oneplog.Common.Level.{async}
use oneplog.NameTable.Direct as Direct
use oneplog.NameTable.Direct.{default_name}
use oneplog.NameTable.FixedName.{until_nul}
use oneplog.NameTable.Platform.{direct_table}
use oneplog.NameManager.Global.{
  new_global, or_main, get_module_name, initialize, set_auto_register_module_name, is_mode,
}
use oneplog.NameManager.Lookup.{
  Naming, named_all, AllBelow, named_all-IsConsistent, named_all-mode, start-IsConsistent,
  lookup-or_main, get_module_name-async, get_module_name-own,
}
use oneplog.NameManager.ThreadIds.{ThreadIds, current_thread_id, current_thread_id_internal}

register_below :
    (t : Direct.DirectTable) (tid : ℕ) (name : List ℕ)
    → tid < 32768
    → (Direct.register 32768 31 t tid name).1 ≡ true
unfolding Direct.register
register_below t tid name h = ground arith

get_name_above :
    (t : Direct.DirectTable) (tid : ℕ)
    → 32768 ≤ tid
    → or_main (Direct.get_name 32768 31 t tid) ≡ default_name
unfolding Direct.get_name or_main
get_name_above t tid h = ground arith

-- On Linux, in asynchronous mode, and after threads with ids below 32768 have named themselves or
-- each other, each under its `gettid()`: for an entry, which carries the low 32 bits of its thread's
-- `pthread_self()`, the worker finds, if that number is positive and below 32768, the name that the
-- thread whose `gettid()` is the same number gets itself, up to a NUL in it, and "main" for an empty
-- one; if the number is 32768 or more, it finds "main", whatever the thread has named itself.
pub get_module_name-logged :
    (ns : List Naming) (worker : ℕ) (logging owner : ThreadIds)
    → 0 < current_thread_id logging
    → current_thread_id_internal owner ≡ current_thread_id logging
    → AllBelow (direct_table 31) 32768 ns
    → (let g =
          named_all
            (direct_table 31)
            ns
            (initialize (direct_table 31) async (new_global (direct_table 31))) in
        get_module_name (direct_table 31) g worker (current_thread_id logging) ≡ (
          if ltb (current_thread_id logging) 32768
          then or_main
              (until_nul (get_module_name (direct_table 31) g (current_thread_id_internal owner) 0))
          else default_name))
unfolding initialize set_auto_register_module_name is_mode
get_module_name-logged ns worker logging owner h same below =
    let l = direct_table 31 in
    let x = current_thread_id logging in
    let start = initialize l async (new_global l) in
    let g = named_all l ns start in
    let consistent =
      named_all-IsConsistent l 32768 register_below ns start (start-IsConsistent l async refl)
        below in
    let mode = named_all-mode l ns start in
    let found = get_module_name-async l g worker x mode h ∙ lookup-or_main l g x in
    elim (Bool-cases (ltb x 32768)) [
      | inl small ↦
          rw (small, same)
            (found
              ∙ ap or_main (consistent.1 x)
              ∙ ap (λ t. or_main (until_nul t)) (sym (get_module_name-own l g x)))
      | inr large ↦ rw large (found ∙ get_name_above g.table x (ground arith))
    ]
