-- ===== src/NameManager/TwinRuns.antt =====
-- The same calls to the two name managers (include/oneplog/name_manager.hpp and
-- include/oneplog/internal/optimized_name_manager.hpp).
use oneplog.Prelude.{
  subst, ℕ, ◌<◌, ◌≡◌, refl, ◌∙◌, sym, ap, Bool, true, false, List, [], ◌∷◌, length, arith,
}
use oneplog.Common.Level.{Mode}
use oneplog.NameTable.FixedName as FixedName
use oneplog.NameTable.FixedName.{until_nul, view-assign, read-count_chars}
use oneplog.Snapshot.Bytes.{read, write}
use oneplog.NameTable.Platform.{LookupTable}
use oneplog.NameManager.Global as Global
use oneplog.NameManager.Global.{
  GlobalNames, new_global, truncated, or_main, is_mode, shared_process, shared_thread,
}
use oneplog.NameManager.Optimized as Optimized
use oneplog.NameManager.Optimized.{OptimizedNames, new_optimized, shown}
use oneplog.NameManager.Lookup.{truncated-eq-take, lookup-or_main}
use oneplog.NameManager.Plain.{IsPlain, until_nul-take, truncated-IsPlain, shown-plain}
use oneplog.NameManager.Twins.{Twins, set_module_name-Twins}

-- What a program asks of either manager.
pub data NameCall : Type 0 where
  initialize : Mode → NameCall
  shutdown : NameCall
  set_auto_register : Bool → NameCall
  set_process_name : List ℕ → NameCall
  set_module_name : ℕ → List ℕ → NameCall
  create : ℕ → ℕ → NameCall
  create_with_name : List ℕ → ℕ → NameCall

module _ (l : LookupTable 31) where
  abbrev pub call_global : NameCall → GlobalNames l → GlobalNames l
  call_global (initialize mode) = Global.initialize l mode
  call_global shutdown = Global.shutdown l
  call_global (set_auto_register enable) = Global.set_auto_register_module_name l enable
  call_global (set_process_name name) = Global.set_process_name l name
  call_global (set_module_name tid name) = Global.set_module_name l tid name
  call_global (create parent child) = Global.create l parent child
  call_global (create_with_name name child) = Global.create_with_name l name child

  abbrev pub call_optimized : NameCall → OptimizedNames 31 l → OptimizedNames 31 l
  call_optimized (initialize mode) = Optimized.initialize 31 l mode
  call_optimized shutdown = Optimized.shutdown 31 l
  call_optimized (set_auto_register enable) = Optimized.set_auto_register_module_name 31 l enable
  call_optimized (set_process_name name) = Optimized.set_process_name 31 l name
  call_optimized (set_module_name tid name) = Optimized.set_module_name 31 l tid name
  call_optimized (create parent child) = Optimized.create 31 l parent child
  call_optimized (create_with_name name child) = Optimized.create_with_name 31 l name child

  abbrev pub run_global : List NameCall → GlobalNames l → GlobalNames l
  run_global [] g = g
  run_global (c ∷ cs) g = run_global cs (call_global c g)

  abbrev pub run_optimized : List NameCall → OptimizedNames 31 l → OptimizedNames 31 l
  run_optimized [] o = o
  run_optimized (c ∷ cs) o = run_optimized cs (call_optimized c o)

  abbrev pub IsPlainCall : NameCall → Type 0
  IsPlainCall (initialize mode) = Unit
  IsPlainCall shutdown = Unit
  IsPlainCall (set_auto_register enable) = Unit
  IsPlainCall (set_process_name name) = IsPlain name
  IsPlainCall (set_module_name tid name) = IsPlain name
  IsPlainCall (create parent child) = Unit
  IsPlainCall (create_with_name name child) = IsPlain name

  abbrev pub AllPlain : List NameCall → Type 0
  AllPlain [] = Unit
  AllPlain (c ∷ cs) = IsPlainCall c × AllPlain cs

  flags-Twins :
      (g : GlobalNames l) (o : OptimizedNames 31 l) (flag : Bool)
      → Twins l g o
      → Twins l (record g { auto_register = flag }) (record o { auto_register = flag })
  flags-Twins g o flag t = record {
    same_table = t.same_table;
    same_auto = refl;
    same_mode = t.same_mode;
    same_process = t.same_process;
    process_plain = t.process_plain;
    same_modules = t.same_modules;
    modules_plain = t.modules_plain;
    table_named = t.table_named;
  }

  mode-Twins :
      (g : GlobalNames l) (o : OptimizedNames 31 l) (mode other : Mode) (flag : Bool)
      → mode ≡ other
      → Twins l g o
      → Twins l
          (record g { mode = mode; is_initialized = flag })
          (record o { mode = other; is_initialized = flag })
  mode-Twins g o mode other flag e t = record {
    same_table = t.same_table;
    same_auto = t.same_auto;
    same_mode = e;
    same_process = t.same_process;
    process_plain = t.process_plain;
    same_modules = t.same_modules;
    modules_plain = t.modules_plain;
    table_named = t.table_named;
  }

  call-Twins :
      (c : NameCall) (g : GlobalNames l) (o : OptimizedNames 31 l)
      → IsPlainCall c
      → Twins l g o
      → Twins l (call_global c g) (call_optimized c o)
  unfolding Global.initialize Global.set_auto_register_module_name Global.shutdown
      Global.set_process_name Global.create Global.create_with_name Optimized.initialize
      Optimized.set_auto_register_module_name Optimized.shutdown Optimized.set_process_name
      Optimized.create Optimized.create_with_name
  call-Twins (initialize mode) g o p t = flags-Twins _ _ _ (mode-Twins g o mode mode true refl t)
  call-Twins shutdown g o p t = flags-Twins _ _ _ (mode-Twins g o g.mode o.mode false t.same_mode t)
  call-Twins (set_auto_register enable) g o p t = flags-Twins g o enable t
  call-Twins (set_process_name name) g o p t = record {
    same_table = t.same_table;
    same_auto = t.same_auto;
    same_mode = t.same_mode;
    same_process =
        view-assign 31 name o.process_name
        ∙ until_nul-take 31 name p.0
        ∙ sym (truncated-eq-take name);
    process_plain = truncated-IsPlain name p;
    same_modules = t.same_modules;
    modules_plain = t.modules_plain;
    table_named = t.table_named;
  }
  call-Twins (set_module_name tid name) g o p t = set_module_name-Twins l tid name g o p t
  call-Twins (create parent child) g o p t =
      let plain = t.modules_plain parent in
      subst
        (λ name.
          Twins l (Global.set_module_name l child (g.module_names parent) g)
            (Optimized.set_module_name 31 l child name o))
        (sym (
          shown-plain (o.module_names parent) (g.module_names parent) (t.same_modules parent)
            plain.1))
        (set_module_name-Twins l child (g.module_names parent) g o plain t)
  call-Twins (create_with_name name child) g o p t = set_module_name-Twins l child name g o p t

  run-Twins :
      (cs : List NameCall) (g : GlobalNames l) (o : OptimizedNames 31 l)
      → AllPlain cs
      → Twins l g o
      → Twins l (run_global cs g) (run_optimized cs o)
  run-Twins [] g o p t = t
  run-Twins (c ∷ cs) g o p t =
      run-Twins cs (call_global c g) (call_optimized c o) p.1 (call-Twins c g o p.0 t)

  start-Twins : Twins l (new_global l) (new_optimized 31 l)
  unfolding FixedName.view FixedName.make FixedName.name_length FixedName.count_chars read write
  start-Twins = record {
    same_table = refl;
    same_auto = refl;
    same_mode = refl;
    same_process = refl;
    process_plain = (refl, omega arith);
    same_modules = λ u. refl;
    modules_plain = λ u. (refl, omega arith);
    table_named = λ u. rw (l.get_name-start u) (omega arith);
  }

  or_main-plain : (name : List ℕ) → 0 < length name → or_main name ≡ name
  unfolding or_main
  or_main-plain [] h = absurd (omega (arith, h))
  or_main-plain (c ∷ cs) h = refl

  get_module_name-Twins :
      (g : GlobalNames l) (o : OptimizedNames 31 l) (caller tid : ℕ)
      → Twins l g o
      → Optimized.get_module_name 31 l o caller tid ≡ Global.get_module_name l g caller tid
  unfolding Global.get_module_name Optimized.get_module_name Optimized.lookup_module_name
  get_module_name-Twins g o caller tid t =
      let own =
        shown-plain (o.module_names caller) (g.module_names caller) (t.same_modules caller)
          (t.modules_plain caller).1 in
      let looked_up =
        lookup-or_main l g tid
        ∙ or_main-plain (l.get_name g.table tid) (t.table_named tid)
        ∙ ap (λ table. l.get_name table tid) t.same_table in
      let mode = t.same_mode in rw (own, looked_up, mode) (ground arith)

  -- The optimized manager and the global functions give the same names, of the process and of the
  -- threads, to any thread that asks and in any mode, after the same calls on a fresh state, as long
  -- as no name is empty or holds a NUL.
  pub run_optimized-run_global :
      (cs : List NameCall) (caller tid process : ℕ)
      → AllPlain cs
      → (Optimized.get_module_name 31 l (run_optimized cs (new_optimized 31 l)) caller tid
          ≡ Global.get_module_name l (run_global cs (new_global l)) caller tid)
        × (Optimized.get_process_name 31 l (run_optimized cs (new_optimized 31 l)) process
            ≡ Global.get_process_name l (run_global cs (new_global l)) process)
  unfolding Global.get_process_name Optimized.get_process_name
  run_optimized-run_global cs caller tid process p =
      let t = run-Twins cs (new_global l) (new_optimized 31 l) p start-Twins in
      (
        get_module_name-Twins _ _ caller tid t,
        rw (shown-plain _ _ t.same_process t.process_plain.1) refl,
      )
