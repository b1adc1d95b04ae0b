-- ===== src/Sinks/Sizes.antt =====
-- How long the files are that messages are packed in
-- (include/oneplog/internal/static_formats.hpp and include/oneplog/sinks/sink.hpp).
use oneplog.Prelude.{
  ℕ, zero, suc, ◌+◌, ◌≤◌, ◌<◌, ◌≡◌, refl, true, ◌&&◌, ◌||◌, Option, none, some, List, [], ◌∷◌, ◌++◌,
  ltb, leb, length, length-append, Bool-cases, inl, inr, ◌⊎◌, arith,
}
use oneplog.Sinks.Pack.{Packed, lines_text, add, pack, held, older_text}

-- A file has at most the maximal size with a newline more, or no more than one message.
abbrev pub IsSmall : ℕ → List (List ℕ) → Type 0
IsSmall max_size f = (leb (length (lines_text f)) (max_size + 1) || leb (length f) 1) ≡ true

abbrev pub AllSmall : ℕ → List (List (List ℕ)) → Type 0
AllSmall max_size [] = Unit
AllSmall max_size (f ∷ fs) = IsSmall max_size f × AllSmall max_size fs

add-AllSmall :
    (max_size : ℕ) (m : List ℕ) (top : List (List ℕ)) (older : List (List (List ℕ)))
    → 0 < max_size
    → IsSmall max_size top
    → AllSmall max_size older
    → IsSmall max_size (add max_size m (top, older)).0
      × AllSmall max_size (add max_size m (top, older)).1
add-AllSmall max_size m top older h small rest =
    let grown = length-append (lines_text top) (m ++ (10 ∷ [])) in
    let line = length-append m (10 ∷ []) in
    elim (Bool-cases (ltb 0 max_size && ltb max_size (length (lines_text top) + length m))) [
      | inl over ↦ rw over (ground arith, (small, rest))
      | inr within ↦ rw within (ground arith, rest)
    ]

pub pack-AllSmall :
    (max_size : ℕ) (msgs : List (List ℕ)) (p : Packed)
    → 0 < max_size
    → IsSmall max_size p.0
    → AllSmall max_size p.1
    → IsSmall max_size (pack max_size msgs p).0 × AllSmall max_size (pack max_size msgs p).1
pack-AllSmall max_size [] p h small rest = (small, rest)
pack-AllSmall max_size (m ∷ ms) p h small rest =
    let q = pack max_size ms p in
    let ih = pack-AllSmall max_size ms p h small rest in add-AllSmall max_size m q.0 q.1 h ih.0 ih.1

abbrev pub IsBounded : ℕ → Option (List ℕ) → Type 0
IsBounded max_size none = Unit
IsBounded max_size (some text) =
    (length text ≤ max_size + 1) ⊎ ((m : List ℕ) × (text ≡ lines_text (m ∷ [])))

IsSmall-IsBounded :
    (max_size : ℕ) (f : List (List ℕ))
    → IsSmall max_size f
    → IsBounded max_size (some (lines_text f))
IsSmall-IsBounded max_size [] small = inl (omega arith)
IsSmall-IsBounded max_size (m ∷ []) small = inr (m, refl)
IsSmall-IsBounded max_size (m ∷ n ∷ ms) small = inl (ground arith)

older_text-IsBounded :
    (max_size : ℕ) (older : List (List (List ℕ))) (i : ℕ)
    → AllSmall max_size older
    → IsBounded max_size (older_text older i)
older_text-IsBounded max_size [] i small = tt
older_text-IsBounded max_size (f ∷ fs) zero small = IsSmall-IsBounded max_size f small.0
older_text-IsBounded max_size (f ∷ fs) (suc i) small = older_text-IsBounded max_size fs i small.1

pub held-IsBounded :
    (max_size : ℕ) (p : Packed) (i : ℕ)
    → IsSmall max_size p.0 × AllSmall max_size p.1
    → IsBounded max_size (held p i)
held-IsBounded max_size (top, older) zero small = IsSmall-IsBounded max_size top small.0
held-IsBounded max_size (top, older) (suc i) small = older_text-IsBounded max_size older i small.1
