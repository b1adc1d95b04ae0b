-- ===== src/SharedMemory/NamesTwice.antt =====
-- Registering in the name table of a segment and looking up, and registering again
-- (include/oneplog/internal/shared_memory.hpp).
use oneplog.Prelude.{
  ℕ, ◌+◌, ◌-◌, ◌≤◌, ◌<◌, ◌≡◌, refl, ◌∙◌, sym, ap, ap₂, true, not, ◌&&◌, ◌||◌, Option, none, some,
  List, [], ◌∷◌, ◌++◌, ◌==◌, if◌then◌else◌, ltb, leb, length, take, arith, Bool-cases, inl, inr,
  take_all, length-append,
}
use oneplog.NameTable.FixedName.{until_nul}
use oneplog.SharedMemory.Names.{Names, register, get_name}
use oneplog.SharedMemory.NamesRefine.{enter-none, enter-some, register-enter, length-names_of}
use oneplog.SharedMemory.NamesSpec.{IsNames, names_of, position, enter, nth, position-lt}
use oneplog.SharedMemory.NamesHeld.{
  nth-listed, position-nth, position-append, nth-append, position-long,
}

module _ (max : ℕ) where
  get_name-nth :
      (t : Names) (id : ℕ)
      → get_name max t id ≡ (if (id == 0) || ltb max id then none else nth (names_of t) (id - 1))
  unfolding get_name names_of
  get_name-nth t id = let at = nth-listed t.entries 0 t.count (id - 1) in ground arith

  abbrev look : List (List ℕ) → ℕ → Option (List ℕ)
  look names id = if (id == 0) || ltb max id then none else nth names (id - 1)

  Looks : List (List ℕ) → List ℕ → ℕ → List (List ℕ) × ℕ → Type 0
  Looks names text id done =
      look done.0 id
      ≡ (if (id == done.1) && not (id == 0) then some (take 31 text) else look names id)

  found-Looks :
      (names : List (List ℕ)) (text : List ℕ) (id j : ℕ)
      → length names ≤ max
      → length text ≤ 31
      → position text names 0 ≡ some j
      → Looks names text id (names, j + 1)
  unfolding Looks
  found-Looks names text id j room short f =
      let inside = position-lt text names 0 j f in
      let held = (position-nth text names 0 j f).1 in
      let index : j - 0 ≡ j = omega arith in
      let all = take_all 31 text short in
      elim (Bool-cases (id == j + 1)) [
        | inl mine ↦
            let place : id - 1 ≡ j - 0 = ground (arith, mine) in
            rw (mine, all, place, held) (ground arith)
        | inr other ↦ rw other refl
      ]

  new-Looks :
      (names : List (List ℕ)) (text : List ℕ) (id : ℕ)
      → length names ≤ max
      → Looks names text id (
          if ltb (length names) max
          then (names ++ (take 31 text ∷ []), length names + 1)
          else (names, 0))
  unfolding Looks
  new-Looks names text id room = let last = nth-append names (take 31 text) (id - 1) in ground arith

  -- A name that stands in the table has at most 31 characters.
  held-short :
      (t : Names) (text : List ℕ) (j : ℕ)
      → IsNames max t
      → position text (names_of t) 0 ≡ some j
      → length text ≤ 31
  unfolding names_of
  held-short t text j h f = elim (Bool-cases (leb (length text) 31)) [
    | inl short ↦ ground (arith, short)
    | inr long ↦
        let missed : position text (names_of t) 0 ≡ none =
          position-long text t.entries 0 t.count (ground (arith, long))
            (λ k l. h.ended k (omega (arith, l))) in
        absurd (ground (arith, missed, f))
  ]

  enter-Looks :
      (t : Names) (text : List ℕ) (id : ℕ)
      → IsNames max t
      → Looks (names_of t) text id (enter max (names_of t) text)
  enter-Looks t text id h = go (position text (names_of t) 0) refl
    where
      room : length (names_of t) ≤ max
      room = omega (arith, length-names_of max t, h.in_range)

      go :
          (mine : Option ℕ)
          → position text (names_of t) 0 ≡ mine
          → Looks (names_of t) text id (enter max (names_of t) text)
      go (some j) f =
          rw (enter-some max (names_of t) text j f)
            (found-Looks (names_of t) text id j room (held-short t text j h f) f)
      go none f = rw (enter-none max (names_of t) text f) (new-Looks (names_of t) text id room)

  -- On a table whose entries carry their ids, looking an id up after a registration gives, for the
  -- id that the registration returned unless that is 0, the first 31 characters of the name, and for
  -- every other id what it gave before.
  pub get_name-register_shared :
      (t : Names) (name : List ℕ) (id : ℕ)
      → IsNames max t
      → get_name max (register max t name).0 id ≡ (
          if (id == (register max t name).1) && not (id == 0)
          then some (take 31 (until_nul name))
          else get_name max t id)
  unfolding Looks
  get_name-register_shared t name id h =
      let done = register-enter max t name h in
      rw (get_name-nth (register max t name).0 id, get_name-nth t id, done.1.0, done.1.1)
        (enter-Looks t (until_nul name) id h)

  enter-enter :
      (names : List (List ℕ)) (text : List ℕ)
      → length text ≤ 31
      → enter max (enter max names text).0 text ≡ enter max names text
  enter-enter names text short = go (position text names 0) refl
    where
      again :
          (n : ℕ)
          → enter max names text ≡ (names, n)
          → enter max (enter max names text).0 text ≡ enter max names text
      again n e = ap (λ p. enter max p.0 text) e

      added :
          position text names 0 ≡ none
          → enter max names text ≡ (names ++ (take 31 text ∷ []), length names + 1)
          → enter max (enter max names text).0 text ≡ enter max names text
      added f e =
          ap (λ p. enter max p.0 text) e
          ∙ ap (λ x. enter max (names ++ (x ∷ [])) text) (take_all 31 text short)
          ∙ enter-some max (names ++ (text ∷ [])) text (0 + length names)
              (position-append text names 0 f)
          ∙ ap₂ (λ x n. (names ++ (x ∷ []), n)) (sym (take_all 31 text short)) (omega arith)
          ∙ sym e

      go :
          (mine : Option ℕ)
          → position text names 0 ≡ mine
          → enter max (enter max names text).0 text ≡ enter max names text
      go (some j) f = again (j + 1) (enter-some max names text j f)
      go none f = elim (Bool-cases (ltb (length names) max)) [
        | inl room ↦ added f (
            enter-none max names text f
            ∙ ap (λ b. if b then (names ++ (take 31 text ∷ []), length names + 1) else (names, 0))
                room)
        | inr full ↦ again 0 (
            enter-none max names text f
            ∙ ap (λ b. if b then (names ++ (take 31 text ∷ []), length names + 1) else (names, 0))
                full)
      ]

  -- On a table whose entries carry their ids, a name of at most 31 characters, registered again at
  -- once, gets the id that it got, or 0 again where there was no room, and the names in the table
  -- stay.
  pub register-twice :
      (t : Names) (name : List ℕ)
      → IsNames max t
      → length (until_nul name) ≤ 31
      → (names_of (register max (register max t name).0 name).0 ≡ names_of (register max t name).0)
        × ((register max (register max t name).0 name).1 ≡ (register max t name).1)
  register-twice t name h short =
      let once = register-enter max t name h in
      let twice = register-enter max (register max t name).0 name once.0 in
      let text = until_nul name in
      let same : enter max (names_of (register max t name).0) text ≡ enter max (names_of t) text =
        ap (λ xs. enter max xs text) once.1.0 ∙ enter-enter (names_of t) text short in
      (twice.1.0 ∙ ap (λ p. p.0) same ∙ sym once.1.0, twice.1.1 ∙ ap (λ p. p.1) same ∙ sym once.1.1)

  long-new :
      (t : Names) (name : List ℕ)
      → IsNames max t
      → 31 < length (until_nul name)
      → t.count < max
      → ((register max t name).1 ≡ t.count + 1) × ((register max t name).0.count ≡ t.count + 1)
  unfolding names_of
  long-new t name h long room =
      let text = until_nul name in
      let missed : position text (names_of t) 0 ≡ none =
        position-long text t.entries 0 t.count long (λ k l. h.ended k (omega (arith, l))) in
      let size = length-names_of max t in
      let free : ltb (length (names_of t)) max ≡ true = ground (arith, size, room) in
      let done = register-enter max t name h in
      let new : enter max (names_of t) text
          ≡ (names_of t ++ (take 31 text ∷ []), length (names_of t) + 1) =
        enter-none max (names_of t) text missed
        ∙ ap
            (λ b.
              if b
              then (names_of t ++ (take 31 text ∷ []), length (names_of t) + 1)
              else (names_of t, 0))
            free in
      (
        done.1.1 ∙ ap (λ p. p.1) new ∙ omega (arith, size),
        sym (length-names_of max (register max t name).0)
            ∙ ap length (done.1.0 ∙ ap (λ p. p.0) new)
            ∙ length-append (names_of t) (take 31 text ∷ [])
            ∙ omega (arith, size),
      )

  -- On a table whose entries carry their ids and that has two entries free, a name of more than 31
  -- characters that is registered twice gets the next two ids.
  pub register-long :
      (t : Names) (name : List ℕ)
      → IsNames max t
      → 31 < length (until_nul name)
      → t.count + 2 ≤ max
      → ((register max t name).1 ≡ t.count + 1)
        × ((register max (register max t name).0 name).1 ≡ t.count + 2)
  register-long t name h long room =
      let once = long-new t name h long (omega (arith, room)) in
      let kept = (register-enter max t name h).0 in
      let twice = long-new (register max t name).0 name kept long (omega (arith, once.1, room)) in
      (once.0, twice.0 ∙ omega (arith, once.1))
