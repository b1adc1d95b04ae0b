-- ===== src/SharedMemory/NamesRefine.antt =====
-- The name table of a segment as a list of names (include/oneplog/internal/shared_memory.hpp).
use Prim.Native.Nat.{min}
use oneplog.Prelude.{
  ℕ, suc, ◌+◌, ◌-◌, ◌<◌, ◌≡◌, refl, ◌∙◌, sym, ap, subst, true, false, Option, none, some, List, [],
  ◌∷◌, ◌++◌, ◌==◌, if◌then◌else◌, ltb, leb, update, length, take, arith, Bool-cases, inl, inr,
}
use oneplog.NameTable.FixedName.{until_nul}
use oneplog.SharedMemory.Names.{Names, NameIdMapping, set, find_name, register}
use oneplog.SharedMemory.NamesSpec.{
  IsNames, listed, names_of, position, enter, find-position, length-listed, listed-update,
  position-lt,
}
use oneplog.SharedMemory.NameEntry.{c_string-set, ended-set}

-- What holds of the first `k` entries and of a new one holds of the `k + 1` then.
update-each :
    (P : ℕ → NameIdMapping → Type 0) (f : ℕ → NameIdMapping) (k : ℕ) (e : NameIdMapping)
    → ((i : ℕ) → i < k → P i (f i))
    → P k e
    → (i : ℕ) → i < k + 1
    → P i (update f k e i)
update-each P f k e old new i h = elim (Bool-cases (k == i)) [
  | inl same ↦ rw same (subst (λ j. P j e) (ground (arith, same)) new)
  | inr differ ↦ rw differ (old i (ground (arith, differ)))
]

module _ (max : ℕ) where
  unfoldable Refines : Names → List ℕ → Names × ℕ → List (List ℕ) × ℕ → Type 0
  Refines t name done spec = IsNames max done.0 × ((names_of done.0 ≡ spec.0) × (done.1 ≡ spec.1))

  appended-IsNames :
      (t : Names) (name : List ℕ)
      → IsNames max t
      → t.count < max
      → IsNames max (record {
        count = t.count + 1;
        entries = update t.entries t.count (set (t.entries t.count) (t.count + 1) name);
      })
  unfolding set
  appended-IsNames t name h room =
      let e = set (t.entries t.count) (t.count + 1) name in
      record {
        in_range = omega (arith, room);
        ids = update-each (λ i x. x.id ≡ i + 1) t.entries t.count e h.ids refl;
        ended =
            update-each (λ i x. x.name 31 ≡ 0) t.entries t.count e h.ended
              (ended-set (t.entries t.count) (t.count + 1) name);
      }

  pub enter-none :
      (names : List (List ℕ)) (text : List ℕ)
      → position text names 0 ≡ none
      → enter max names text ≡ (
          if ltb (length names) max
          then (names ++ (take 31 text ∷ []), length names + 1)
          else (names, 0))
  unfolding enter
  enter-none names text f = rw (enter, f) refl

  pub enter-some :
      (names : List (List ℕ)) (text : List ℕ) (i : ℕ)
      → position text names 0 ≡ some i
      → enter max names text ≡ (names, i + 1)
  unfolding enter
  enter-some names text i f = rw (enter, f) refl

  -- Entry `t.count` claimed and set.
  abbrev appended : Names → List ℕ → Names
  appended t name = record {
    count = t.count + 1;
    entries = update t.entries t.count (set (t.entries t.count) (t.count + 1) name);
  }

  appended-names_of :
      (t : Names) (name : List ℕ)
      → names_of (appended t name) ≡ names_of t ++ (take 31 (until_nul name) ∷ [])
  unfolding names_of
  appended-names_of t name =
      let next : t.count + 1 ≡ suc t.count = omega arith in
      let e = set (t.entries t.count) (t.count + 1) name in
      ap (listed (update t.entries t.count e) 0) next
      ∙ listed-update t.entries e 0 t.count t.count (omega arith)
      ∙ ap (λ x. listed t.entries 0 t.count ++ (x ∷ []))
          (c_string-set (t.entries t.count) (t.count + 1) name)

  pub length-names_of : (t : Names) → length (names_of t) ≡ t.count
  unfolding names_of
  length-names_of t = length-listed t.entries 0 t.count

  module _ (t : Names) (name : List ℕ) (h : IsNames max t) where
    find-names_of :
        find_name t.entries name 0 (min t.count max) ≡ position (until_nul name) (names_of t) 0
    unfolding names_of
    find-names_of =
        let all : min t.count max ≡ t.count = omega (arith, h.in_range) in
        ap (find_name t.entries name 0) all ∙ find-position t.entries name 0 t.count

    register-none :
        position (until_nul name) (names_of t) 0 ≡ none
        → register max t name ≡ (
            if leb max t.count
            then (record t { count = t.count + 1 - 1 }, 0)
            else (appended t name, t.count + 1))
    unfolding register
    register-none f = rw (register, find-names_of, f) refl

    register-some :
        (i : ℕ)
        → position (until_nul name) (names_of t) 0 ≡ some i
        → register max t name ≡ (t, (t.entries i).id)
    unfolding register
    register-some i f = rw (register, find-names_of, f) refl

    found-Refines :
        (i : ℕ)
        → position (until_nul name) (names_of t) 0 ≡ some i
        → Refines t name (t, (t.entries i).id) (names_of t, i + 1)
    unfolding Refines
    found-Refines i f =
        let inside = position-lt (until_nul name) (names_of t) 0 i f in
        (h, (refl, h.ids i (omega (arith, length-names_of t, inside))))

    new-Refines :
        Refines t name
          (if leb max t.count
            then (record t { count = t.count + 1 - 1 }, 0)
            else (appended t name, t.count + 1))
          (if ltb (length (names_of t)) max
            then (names_of t ++ (take 31 (until_nul name) ∷ []), length (names_of t) + 1)
            else (names_of t, 0))
    unfolding Refines
    new-Refines =
        let size = length-names_of t in
        elim (Bool-cases (leb max t.count)) [
          | inl full ↦
              let taken : ltb (length (names_of t)) max ≡ false = ground (arith, size, full) in
              let back : t.count + 1 - 1 ≡ t.count = omega arith in
              rw (full, taken, back) (h, (refl, refl))
          | inr room ↦
              let free : ltb (length (names_of t)) max ≡ true = ground (arith, size, room) in
              rw (room, free)
                (
                  appended-IsNames t name h (ground (arith, room)),
                  (appended-names_of t name, ap (λ n. n + 1) (sym size)),
                )
        ]

  -- Registering a name on a table whose entries carry their ids does what entering the text in the
  -- list of its names does: it gives the place of a name already there, appends the first 31
  -- characters of a new one while there is room, and gives 0 and changes nothing otherwise; and the
  -- table stays of that form.
  pub register-enter :
      (t : Names) (name : List ℕ)
      → IsNames max t
      → IsNames max (register max t name).0
        × ((names_of (register max t name).0 ≡ (enter max (names_of t) (until_nul name)).0)
            × ((register max t name).1 ≡ (enter max (names_of t) (until_nul name)).1))
  unfolding Refines
  register-enter t name h = go (position (until_nul name) (names_of t) 0) refl
    where
      go :
          (mine : Option ℕ)
          → position (until_nul name) (names_of t) 0 ≡ mine
          → Refines t name (register max t name) (enter max (names_of t) (until_nul name))
      go (some i) f =
          rw (register-some t name h i f, enter-some (names_of t) (until_nul name) i f)
            (found-Refines t name h i f)
      go none f =
          rw (register-none t name h f, enter-none (names_of t) (until_nul name) f)
            (new-Refines t name h)
