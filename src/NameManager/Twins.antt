-- ===== src/NameManager/Twins.antt =====
-- The two name managers side by side (include/oneplog/name_manager.hpp and
-- include/oneplog/internal/optimized_name_manager.hpp).
use oneplog.Prelude.{
  ℕ, ◌<◌, ◌≡◌, ◌∙◌, sym, ap₂, Option, Bool, true, false, ◌&&◌, List, ◌==◌, if◌then◌else◌, update,
  length, length-take, Bool-cases, inl, inr, arith,
}
use oneplog.NameTable.FixedName as FixedName
use oneplog.NameTable.FixedName.{until_nul, view-assign, read-count_chars}
use oneplog.NameTable.Platform.{LookupTable}
use oneplog.SharedMemory.Names.{ProcessThreadNameTable}
use oneplog.NameManager.Global as Global
use oneplog.NameManager.Global.{
  GlobalNames, new_global, truncated, or_main, is_mode, shared_process, shared_thread,
}
use oneplog.NameManager.Optimized as Optimized
use oneplog.NameManager.Optimized.{OptimizedNames, new_optimized, shown}
use oneplog.NameManager.Lookup.{truncated-eq-take}
use oneplog.NameManager.Plain.{IsPlain, until_nul-take, truncated-IsPlain}

module _ (l : LookupTable 31) where
  -- States that a program cannot tell apart.
  pub record Twins (g : GlobalNames l) (o : OptimizedNames 31 l) : Type 0 where
    pub same_table : g.table ≡ o.table
    pub same_auto : g.auto_register ≡ o.auto_register
    pub same_mode : g.mode ≡ o.mode
    pub same_process : FixedName.view 31 o.process_name ≡ g.process_name
    pub process_plain : IsPlain g.process_name
    pub same_modules : (tid : ℕ) → FixedName.view 31 (o.module_names tid) ≡ g.module_names tid
    pub modules_plain : (tid : ℕ) → IsPlain (g.module_names tid)
    pub table_named : (tid : ℕ) → 0 < length (l.get_name g.table tid)

  named-Twins :
      (tid : ℕ) (name : List ℕ) (g : GlobalNames l) (o : OptimizedNames 31 l)
      → IsPlain name
      → Twins g o
      → Twins
          (record g { module_names = update g.module_names tid (truncated name) })
          (record o {
            module_names =
                update o.module_names tid (FixedName.assign 31 name (o.module_names tid));
          })
  named-Twins tid name g o p t =
      let viewed : FixedName.view 31 (FixedName.assign 31 name (o.module_names tid))
          ≡ truncated name =
        view-assign 31 name (o.module_names tid)
        ∙ until_nul-take 31 name p.0
        ∙ sym (truncated-eq-take name) in
      let plain = truncated-IsPlain name p in
      record {
        same_table = t.same_table;
        same_auto = t.same_auto;
        same_mode = t.same_mode;
        same_process = t.same_process;
        process_plain = t.process_plain;
        same_modules = λ u. elim (Bool-cases (tid == u)) [
          | inl here ↦ rw here viewed
          | inr there ↦ rw there (t.same_modules u)
        ];
        modules_plain = λ u. elim (Bool-cases (tid == u)) [
          | inl here ↦ rw here plain
          | inr there ↦ rw there (t.modules_plain u)
        ];
        table_named = t.table_named;
      }

  register_module_name-Twins :
      (tid : ℕ) (g : GlobalNames l) (o : OptimizedNames 31 l)
      → Twins g o
      → Twins (Global.register_module_name l tid g) (Optimized.register_module_name 31 l tid o)
  unfolding Global.register_module_name Optimized.register_module_name
  register_module_name-Twins tid g o t = record {
    same_table =
        ap₂ (λ table name. (l.register table tid name).0) t.same_table (sym (t.same_modules tid));
    same_auto = t.same_auto;
    same_mode = t.same_mode;
    same_process = t.same_process;
    process_plain = t.process_plain;
    same_modules = t.same_modules;
    modules_plain = t.modules_plain;
    table_named = λ u.
        let law = l.get_name-register g.table tid (g.module_names tid) u in
        let plain = t.modules_plain tid in
        let size = length-take 31 (g.module_names tid) in
        let cut = until_nul-take 31 (g.module_names tid) plain.0 in
        let named = t.table_named u in
        let taken = (l.register g.table tid (g.module_names tid)).1 && (tid == u) in
        elim (Bool-cases taken) [
          | inl listed ↦ rw (law, listed, cut) (omega (arith, size, plain.1))
          | inr kept ↦ rw (law, kept) named
        ];
  }

  segment-Twins :
      (g : GlobalNames l) (o : OptimizedNames 31 l) (segment : Option ProcessThreadNameTable)
      → Twins g o
      → Twins (record g { segment = segment }) o
  segment-Twins g o segment t = record {
    same_table = t.same_table;
    same_auto = t.same_auto;
    same_mode = t.same_mode;
    same_process = t.same_process;
    process_plain = t.process_plain;
    same_modules = t.same_modules;
    modules_plain = t.modules_plain;
    table_named = t.table_named;
  }

  either-Twins :
      (b c : Bool) (g g' : GlobalNames l) (o o' : OptimizedNames 31 l)
      → b ≡ c
      → Twins g o
      → Twins g' o'
      → Twins (if b then g else g') (if c then o else o')
  either-Twins true true g g' o o' e t t' = t
  either-Twins true false g g' o o' e t t' = absurd (ground arith)
  either-Twins false true g g' o o' e t t' = absurd (ground arith)
  either-Twins false false g g' o o' e t t' = t'

  pub set_module_name-Twins :
      (tid : ℕ) (name : List ℕ) (g : GlobalNames l) (o : OptimizedNames 31 l)
      → IsPlain name
      → Twins g o
      → Twins (Global.set_module_name l tid name g) (Optimized.set_module_name 31 l tid name o)
  unfolding Global.set_module_name Optimized.set_module_name
  set_module_name-Twins tid name g o p t =
      let named = named-Twins tid name g o p t in
      segment-Twins _ _ _ (
        either-Twins g.auto_register o.auto_register _ _ _ _ t.same_auto
          (register_module_name-Twins tid _ _ named) named)
