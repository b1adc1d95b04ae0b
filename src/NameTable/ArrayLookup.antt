-- ===== src/NameTable/ArrayLookup.antt =====
-- Registering in `ArrayMappingTable` and looking up afterwards
-- (include/oneplog/internal/array_mapping_table.hpp).
use oneplog.Prelude.{
  ℕ, ◌≡◌, subst, refl, sym, Bool, true, false, not, ◌&&◌, ◌||◌, Option, none, some, List, ◌==◌,
  if◌then◌else◌, arith, take, ltb, update, Bool-cases, inl, inr,
}
use oneplog.NameTable.FixedName.{assign, until_nul}
use oneplog.NameTable.Array.{
  ArrayTable, find, is_registered, is_full, register, get_name, named, appended,
}
use oneplog.NameTable.ArrayFind.{find-names, find-appended, name_at-update, name_at-appended}

module _ (max_entries cap : ℕ) where
  -- The name of `other` after a call of `Register` that returns `res`.
  Updates : ArrayTable → ℕ → List ℕ → ℕ → ArrayTable × Bool → Type 0
  Updates t tid name other res = get_name max_entries cap res.0 other ≡ (
      if res.1 && (tid == other)
      then until_nul (take cap name)
      else get_name max_entries cap t other)

  named-Updates :
      (t : ArrayTable) (tid : ℕ) (name : List ℕ) (other j : ℕ)
      → find t tid 0 t.count ≡ some j
      → Updates t tid name other (named cap t j name, true)
  unfolding Updates get_name
  named-Updates t tid name other j f =
      rw (find-names t other 0 t.count (update t.names j (assign cap name (t.names j))))
        (name_at-update t cap tid j name f other (find t other 0 t.count) refl)

  appended-Updates :
      (t : ArrayTable) (tid : ℕ) (name : List ℕ) (other : ℕ)
      → find t tid 0 t.count ≡ none
      → Updates t tid name other (appended cap t tid name, true)
  unfolding Updates get_name
  appended-Updates t tid name other f =
      rw (find-appended t cap tid name other)
        (name_at-appended t cap tid name f other (find t other 0 t.count) refl)

  register-some :
      (t : ArrayTable) (tid : ℕ) (name : List ℕ) (j : ℕ)
      → find t tid 0 t.count ≡ some j
      → register max_entries cap t tid name ≡ (named cap t j name, true)
  unfolding register
  register-some t tid name j f = rw (register, f) refl

  register-room :
      (t : ArrayTable) (tid : ℕ) (name : List ℕ)
      → find t tid 0 t.count ≡ none
      → ltb t.count max_entries ≡ true
      → register max_entries cap t tid name ≡ (appended cap t tid name, true)
  unfolding register
  register-room t tid name f room = rw (register, f, room) refl

  register-full :
      (t : ArrayTable) (tid : ℕ) (name : List ℕ)
      → find t tid 0 t.count ≡ none
      → ltb t.count max_entries ≡ false
      → register max_entries cap t tid name ≡ (t, false)
  unfolding register
  register-full t tid name f full = rw (register, f, full) refl

  unchanged-Updates :
      (t : ArrayTable) (tid : ℕ) (name : List ℕ) (other : ℕ) → Updates t tid name other (t, false)
  unfolding Updates
  unchanged-Updates t tid name other = refl

  register-Updates :
      (t : ArrayTable) (tid : ℕ) (name : List ℕ) (other : ℕ) (mine : Option ℕ)
      → find t tid 0 t.count ≡ mine
      → Updates t tid name other (register max_entries cap t tid name)
  register-Updates t tid name other (some j) f =
      subst (Updates t tid name other) (sym (register-some t tid name j f))
        (named-Updates t tid name other j f)
  register-Updates t tid name other none f = elim (Bool-cases (ltb t.count max_entries)) [
    | inl room ↦
        subst (Updates t tid name other) (sym (register-room t tid name f room))
          (appended-Updates t tid name other f)
    | inr full ↦
        subst (Updates t tid name other) (sym (register-full t tid name f full))
          (unchanged-Updates t tid name other)
  ]

  -- Looking a thread up after `Register` gives the new name, truncated and cut at a NUL, for the
  -- thread registered, if the table took it, and what it gave before in every other case.
  pub get_name-register_array :
      (t : ArrayTable) (tid : ℕ) (name : List ℕ) (other : ℕ)
      → get_name max_entries cap (register max_entries cap t tid name).0 other ≡ (
          if (register max_entries cap t tid name).1 && (tid == other)
          then until_nul (take cap name)
          else get_name max_entries cap t other)
  unfolding Updates
  get_name-register_array t tid name other =
      register-Updates t tid name other (find t tid 0 t.count) refl

  -- `Register` takes a name exactly if the table has the thread already or is not full.
  pub register-accepts :
      (t : ArrayTable) (tid : ℕ) (name : List ℕ)
      → (register max_entries cap t tid name).1
        ≡ (is_registered t tid || not (is_full max_entries cap t))
  unfolding register is_registered is_full
  register-accepts t tid name = go (find t tid 0 t.count) refl
    where
      go :
          (mine : Option ℕ) (f : find t tid 0 t.count ≡ mine)
          → (register max_entries cap t tid name).1
            ≡ (is_registered t tid || not (is_full max_entries cap t))
      go (some j) f = rw (register, is_registered, f) refl
      go none f = rw (register, is_registered, f) (ground arith)
