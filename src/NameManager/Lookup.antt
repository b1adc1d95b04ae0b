-- ===== src/NameManager/Lookup.antt =====
-- Looking up the names that threads gave themselves (include/oneplog/name_manager.hpp).
use oneplog.Prelude.{
  ℕ, ◌<◌, ◌≡◌, refl, ◌∙◌, sym, ap, Bool, true, false, not, ◌&&◌, ◌||◌, List, [], ◌∷◌, ◌==◌,
  if◌then◌else◌, ltb, update, length, take, take_all, length-take, update_self, same_text,
  same_text-path, to_string, Bool-cases, inl, inr, arith,
}
use oneplog.Common.Level.{Mode, sync, async, mproc}
use oneplog.NameTable.Direct.{default_name}
use oneplog.NameTable.FixedName.{until_nul}
use oneplog.NameTable.Platform.{LookupTable}
use oneplog.NameManager.Global.{
  GlobalNames, new_global, is_mode, set_auto_register_module_name, truncated, or_main,
  set_module_name, register_module_name, table_get_name, lookup_module_name, get_module_name,
  initialize, create, create_with_name,
}

-- A thread names itself, creates a child, or creates a child with a name.
pub data Naming : Type 0 where
  set_name : ℕ → List ℕ → Naming
  create_thread : ℕ → ℕ → Naming
  create_named : List ℕ → ℕ → Naming

pub truncated-eq-take : (name : List ℕ) → truncated name ≡ take 31 name
unfolding truncated
truncated-eq-take name = elim (Bool-cases (ltb 31 (length name))) [
  | inl long ↦ rw long refl
  | inr short ↦ rw short (sym (take_all 31 name (ground arith)))
]

-- "main" is looked up alike whether it is registered or not.
default_either :
    (name : List ℕ) (same unlisted : Bool)
    → (same ≡ true → name ≡ default_name)
    → or_main (if same && unlisted then [] else name) ≡ or_main name
unfolding or_main
default_either name true true h = ap or_main (sym (h refl))
default_either name true false h = refl
default_either name false unlisted h = refl

take_truncated : (name : List ℕ) → take 31 (truncated name) ≡ truncated name
take_truncated name =
    take_all 31 (truncated name)
      (let size = length-take 31 name in rw (truncated-eq-take name) (omega (arith, size)))

module _ (l : LookupTable 31) where
  abbrev pub named : Naming → GlobalNames l → GlobalNames l
  named (set_name tid name) = set_module_name l tid name
  named (create_thread parent child) = create l parent child
  named (create_named name child) = create_with_name l name child

  -- The thread that gets a name.
  abbrev pub subject : Naming → ℕ
  subject (set_name tid name) = tid
  subject (create_thread parent child) = child
  subject (create_named name child) = child

  -- Several, the last one at the head.
  abbrev pub named_all : List Naming → GlobalNames l → GlobalNames l
  named_all [] g = g
  named_all (n ∷ ns) g = named n (named_all ns g)

  -- A lookup is the table's name, or "main" if that is empty.
  pub lookup-or_main :
      (g : GlobalNames l) (tid : ℕ) → lookup_module_name l g tid ≡ or_main (l.get_name g.table tid)
  unfolding lookup_module_name table_get_name
  lookup-or_main g tid =
      default_either (l.get_name g.table tid) (same_text (l.get_name g.table tid) default_name)
        (not (l.is_registered g.table tid))
        (λ same. same_text-path (l.get_name g.table tid) default_name same)

  -- Every thread's name is looked up as the thread itself has it, up to a NUL in it.
  abbrev pub IsConsistent : GlobalNames l → Type 0
  IsConsistent g =
      (g.auto_register ≡ true)
      × ((tid : ℕ) → l.get_name g.table tid ≡ until_nul (g.module_names tid))

  pub start-IsConsistent :
      (mode : Mode) → (is_mode mode sync ≡ false) → IsConsistent (initialize l mode (new_global l))
  unfolding initialize set_auto_register_module_name is_mode
  start-IsConsistent sync h = absurd (ground arith)
  start-IsConsistent async h = (refl, l.get_name-start)
  start-IsConsistent mproc h = (refl, l.get_name-start)

  set_module_name-IsConsistent :
      (g : GlobalNames l) (tid : ℕ) (name : List ℕ)
      → IsConsistent g
      → (l.register g.table tid (truncated name)).1 ≡ true
      → IsConsistent (set_module_name l tid name g)
  unfolding set_module_name register_module_name
  set_module_name-IsConsistent g tid name c taken =
      let own = record g { module_names = update g.module_names tid (truncated name) } in
      let listed = register_module_name l tid own in
      let self = update_self g.module_names tid (truncated name) in
      let looked_up : (t : ℕ) → l.get_name listed.table t ≡ until_nul (own.module_names t) = λ t.
        let law = l.get_name-register g.table tid (truncated name) t in
        let whole = take_truncated name in let before = c.1 t in rw self (law ∙ ground arith) in
      (
        ap (λ b. (if b then listed else own).auto_register) c.0 ∙ c.0,
        λ t.
            ap (λ b. l.get_name (if b then listed else own).table t) c.0
            ∙ looked_up t
            ∙ sym (ap (λ b. until_nul ((if b then listed else own).module_names t)) c.0),
      )

  named-IsConsistent :
      (n : Naming) (g : GlobalNames l)
      → IsConsistent g
      → ((name : List ℕ) → (l.register g.table (subject n) name).1 ≡ true)
      → IsConsistent (named n g)
  unfolding create create_with_name
  named-IsConsistent (set_name tid name) g c accepts =
      set_module_name-IsConsistent g tid name c (accepts (truncated name))
  named-IsConsistent (create_thread parent child) g c accepts =
      set_module_name-IsConsistent g child (g.module_names parent) c
        (accepts (truncated (g.module_names parent)))
  named-IsConsistent (create_named name child) g c accepts =
      set_module_name-IsConsistent g child name c (accepts (truncated name))

  -- Naming a thread leaves the mode.
  set_module_name-mode :
      (tid : ℕ) (name : List ℕ) (g : GlobalNames l) → (set_module_name l tid name g).mode ≡ g.mode
  unfolding set_module_name register_module_name
  set_module_name-mode tid name g = ground arith

  pub named_all-mode : (ns : List Naming) (g : GlobalNames l) → (named_all ns g).mode ≡ g.mode
  unfolding create create_with_name
  named_all-mode [] g = refl
  named_all-mode (set_name tid name ∷ ns) g =
      set_module_name-mode tid name (named_all ns g) ∙ named_all-mode ns g
  named_all-mode (create_thread parent child ∷ ns) g =
      set_module_name-mode child ((named_all ns g).module_names parent) (named_all ns g)
      ∙ named_all-mode ns g
  named_all-mode (create_named name child ∷ ns) g =
      set_module_name-mode child name (named_all ns g) ∙ named_all-mode ns g

  abbrev pub AllBelow : ℕ → List Naming → Type 0
  AllBelow bound [] = Unit
  AllBelow bound (n ∷ ns) = (subject n < bound) × AllBelow bound ns

  pub named_all-IsConsistent :
      (bound : ℕ)
      → ((t : l.Table) (tid : ℕ) (name : List ℕ) → tid < bound → (l.register t tid name).1 ≡ true)
      → (ns : List Naming) (g : GlobalNames l) → IsConsistent g
      → AllBelow bound ns
      → IsConsistent (named_all ns g)
  named_all-IsConsistent bound accepts [] g c below = c
  named_all-IsConsistent bound accepts (n ∷ ns) g c below =
      named-IsConsistent n (named_all ns g) (named_all-IsConsistent bound accepts ns g c below.1)
        (λ name. accepts (named_all ns g).table (subject n) name below.0)

  pub get_module_name-async :
      (g : GlobalNames l) (caller tid : ℕ)
      → g.mode ≡ async
      → 0 < tid
      → get_module_name l g caller tid ≡ lookup_module_name l g tid
  unfolding get_module_name is_mode
  get_module_name-async g caller tid e h =
      let other : (tid == 0) ≡ false = ground arith in
      ap
        (λ m.
          if is_mode m sync || (tid == 0)
          then g.module_names caller
          else if is_mode m async
          then lookup_module_name l g tid
          else if is_mode m mproc && not (tid == 0)
          then to_string tid
          else default_name)
        e
      ∙ rw other refl

  pub get_module_name-own :
      (g : GlobalNames l) (caller : ℕ) → get_module_name l g caller 0 ≡ g.module_names caller
  unfolding get_module_name
  get_module_name-own g caller = ground arith
