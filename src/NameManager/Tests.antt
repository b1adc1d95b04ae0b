-- ===== src/NameManager/Tests.antt =====
-- Threads that name themselves, on Linux (include/oneplog/name_manager.hpp and
-- include/oneplog/internal/optimized_name_manager.hpp).
use oneplog.Prelude.{ltb, if◌then◌else◌, ◌≡◌, refl, List, [], ◌∷◌, arith}
use oneplog.Common.Level.{async}
use oneplog.NameTable.FixedName.{until_nul}
use oneplog.NameTable.Platform.{direct_table}
use oneplog.NameManager.Global as Global
use oneplog.NameManager.Global.{new_global, or_main}
use oneplog.NameManager.Optimized as Optimized
use oneplog.NameManager.Optimized.{new_optimized}
use oneplog.NameManager.Lookup.{Naming, set_name, create_thread, named_all}
use oneplog.NameManager.Logged.{get_module_name-logged}
use oneplog.NameManager.ThreadIds.{ThreadIds, current_thread_id, current_thread_id_internal}
use oneplog.NameTable.Direct.{default_name}
use oneplog.NameManager.TwinRuns.{
  NameCall, initialize, set_module_name, create, run_global, run_optimized,
  run_optimized-run_global,
}

-- Thread 7 takes a name and creates thread 8.
abbrev namings : List Naming
namings = create_thread 7 8 ∷ set_name 7 (110 ∷ 101 ∷ 116 ∷ []) ∷ []

-- Thread 8 as the system knows it, and a thread whose `gettid()` is what thread 8 logs with.
abbrev eighth : ThreadIds
eighth = record { gettid = 8; pthread_self = 140234567890688 }

abbrev namesake : ThreadIds
namesake = record { gettid = current_thread_id eighth; pthread_self = 0 }

-- Thread 8 has a name, and its entries are shown as of "main".
get_module_name-logged_example :
    (let g =
        named_all
          (direct_table 31)
          namings
          (Global.initialize (direct_table 31) async (new_global (direct_table 31))) in
      Global.get_module_name (direct_table 31) g 1 (current_thread_id eighth) ≡ (
        if ltb (current_thread_id eighth) 32768
        then or_main (
            until_nul
              (Global.get_module_name (direct_table 31) g (current_thread_id_internal namesake) 0))
        else default_name))
unfolding current_thread_id current_thread_id_internal
get_module_name-logged_example =
    get_module_name-logged namings 1 eighth namesake (omega arith) refl
      (omega arith, (omega arith, tt))

abbrev calls : List NameCall
calls = initialize async ∷ set_module_name 7 (110 ∷ 101 ∷ 116 ∷ []) ∷ create 7 8 ∷ []

run_optimized-run_global_example :
    (Optimized.get_module_name 31
        (direct_table 31)
        (run_optimized (direct_table 31) calls (new_optimized 31 (direct_table 31)))
        1
        8
      ≡ Global.get_module_name
          (direct_table 31)
          (run_global (direct_table 31) calls (new_global (direct_table 31)))
          1
          8)
    × (Optimized.get_process_name 31
          (direct_table 31)
          (run_optimized (direct_table 31) calls (new_optimized 31 (direct_table 31)))
          0
        ≡ Global.get_process_name
            (direct_table 31)
            (run_global (direct_table 31) calls (new_global (direct_table 31)))
            0)
run_optimized-run_global_example =
    run_optimized-run_global (direct_table 31) calls 1 8 0 (tt, ((refl, omega arith), (tt, tt)))
