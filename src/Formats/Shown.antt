-- ===== src/Formats/Shown.antt =====
-- Which names the formats show (include/oneplog/internal/static_formats.hpp with
-- include/oneplog/name_manager.hpp).
use oneplog.Prelude.{
  ℕ, ◌<◌, ◌≡◌, refl, ◌∙◌, ap, false, List, [], ◌∷◌, ◌==◌, if◌then◌else◌, update, arith,
}
use oneplog.Common.Level.{Level, sync}
use oneplog.Snapshot.Capture.{Snapshot}
use oneplog.NameTable.Direct.{default_name}
use oneplog.NameTable.Platform.{LookupTable}
use oneplog.NameManager.Global.{
  GlobalNames, new_global, set_process_name, set_module_name, initialize, lookup_module_name,
  create, create_with_name, set_auto_register_module_name, is_mode, or_main, truncated,
  register_module_name,
}
use oneplog.NameManager.Lookup.{
  Naming, set_name, create_thread, create_named, named_all, lookup-or_main,
}
use oneplog.Formats.Text.{format_fixed_width_name}
use oneplog.Formats.Static.{
  Place, shown_process, shown_module, simple_entry, full_entry, file_entry,
}

module _ (l : LookupTable 31) where
  -- The place with another name of the process.
  abbrev pub renamed : List ℕ → Place l → Place l
  renamed name w = record w { names = set_process_name l name w.names }

  shown_process-number :
      (w : Place l) (name : List ℕ) (pid : ℕ)
      → 0 < pid
      → shown_process l (renamed name w) pid ≡ shown_process l w pid
  unfolding shown_process
  shown_process-number w name pid h =
      let numbered : (pid == 0) ≡ false = ground arith in rw numbered refl

  -- In a line with a process id other than 0 the name of the process does not show: setting it
  -- changes no line of the three formats.
  pub renamed-same_lines :
      (w : Place l) (name : List ℕ) (level : Level) (timestamp tid pid : ℕ) (s : Snapshot)
      → 0 < pid
      → (simple_entry l (renamed name w) level timestamp tid pid s
          ≡ simple_entry l w level timestamp tid pid s)
        × (full_entry l (renamed name w) level timestamp tid pid s
            ≡ full_entry l w level timestamp tid pid s)
        × (file_entry l (renamed name w) level timestamp tid pid s
            ≡ file_entry l w level timestamp tid pid s)
  unfolding simple_entry full_entry file_entry shown_module set_process_name lookup_module_name
  renamed-same_lines w name level timestamp tid pid s h =
      let same = shown_process-number w name pid h in (rw same refl, rw same refl, rw same refl)

  set_module_name-unregistered :
      (tid : ℕ) (name : List ℕ) (g : GlobalNames l)
      → g.auto_register ≡ false
      → ((set_module_name l tid name g).auto_register ≡ false)
        × ((set_module_name l tid name g).table ≡ g.table)
  unfolding set_module_name
  set_module_name-unregistered tid name g off =
      let own = record g { module_names = update g.module_names tid (truncated name) } in
      let listed = register_module_name l tid own in
      (
        ap (λ b. (if b then listed else own).auto_register) off ∙ off,
        ap (λ b. (if b then listed else own).table) off,
      )

  -- Nothing is registered while the flag is off.
  unregistered :
      (ns : List Naming) (g : GlobalNames l)
      → g.auto_register ≡ false
      → ((named_all l ns g).auto_register ≡ false) × ((named_all l ns g).table ≡ g.table)
  unfolding create create_with_name
  unregistered [] g off = (off, refl)
  unregistered (set_name tid name ∷ ns) g off =
      let before = unregistered ns g off in
      let now = set_module_name-unregistered tid name (named_all l ns g) before.0 in
      (now.0, now.1 ∙ before.1)
  unregistered (create_thread parent child ∷ ns) g off =
      let before = unregistered ns g off in
      let name = (named_all l ns g).module_names parent in
      let now = set_module_name-unregistered child name (named_all l ns g) before.0 in
      (now.0, now.1 ∙ before.1)
  unregistered (create_named name child ∷ ns) g off =
      let before = unregistered ns g off in
      let now = set_module_name-unregistered child name (named_all l ns g) before.0 in
      (now.0, now.1 ∙ before.1)

  -- In synchronous mode a line with a thread id other than 0 shows "main" as the module, whatever
  -- names the threads gave themselves.
  pub shown_module-sync :
      (ns : List Naming) (w : Place l) (tid : ℕ)
      → 0 < tid
      → w.names ≡ named_all l ns (initialize l sync (new_global l))
      → shown_module l w tid ≡ format_fixed_width_name default_name
  unfolding shown_module initialize set_auto_register_module_name is_mode or_main
  shown_module-sync ns w tid h e =
      let numbered : (tid == 0) ≡ false = ground arith in
      let empty = (unregistered ns (initialize l sync (new_global l)) refl).1 in
      let looked_up : lookup_module_name l w.names tid ≡ default_name =
        lookup-or_main l w.names tid
        ∙ ap (λ g. or_main (l.get_name g.table tid)) e
        ∙ ap (λ t. or_main (l.get_name t tid)) empty
        ∙ ap or_main (l.get_name-start tid) in
      rw (numbered, looked_up) refl
