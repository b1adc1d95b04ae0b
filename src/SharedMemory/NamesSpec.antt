-- ===== src/SharedMemory/NamesSpec.antt =====
-- The names of a segment as a list, and what the search finds in it
-- (include/oneplog/internal/shared_memory.hpp).
use oneplog.Prelude.{
  ℕ, zero, suc, ◌+◌, ◌≤◌, ◌<◌, ◌≡◌, refl, ◌∙◌, sym, ap, ap₂, Option, none, some, List, [], ◌∷◌,
  ◌++◌, if◌then◌else◌, ltb, update, update_self, update_ne, length, take, arith, Bool-cases, inl,
  inr,
}
use oneplog.NameTable.FixedName.{c_string, until_nul}
use oneplog.Prelude.{same_text}
use oneplog.SharedMemory.Names.{Names, NameIdMapping, find_name}

-- The names of the `n` entries from `i` on.
unfoldable pub listed : (ℕ → NameIdMapping) → ℕ → ℕ → List (List ℕ)
listed entries i zero = []
listed entries i (suc n) = c_string 32 (entries i).name ∷ listed entries (i + 1) n

unfoldable pub names_of : Names → List (List ℕ)
names_of t = listed t.entries 0 t.count

-- The specification: a list of names, the id of a name its place in the list, from 1.
unfoldable pub position : List ℕ → List (List ℕ) → ℕ → Option ℕ
position text [] i = none
position text (x ∷ xs) i =
    let rest = position text xs (i + 1) in if same_text x text then some i else rest

unfoldable pub enter : ℕ → List (List ℕ) → List ℕ → List (List ℕ) × ℕ
enter max names text = elim (position text names 0) [
  | some i ↦ (names, i + 1)
  | none ↦
      if ltb (length names) max
      then (names ++ (take 31 text ∷ []), length names + 1)
      else (names, 0)
]

unfoldable pub nth : List (List ℕ) → ℕ → Option (List ℕ)
nth [] i = none
nth (x ∷ xs) zero = some x
nth (x ∷ xs) (suc i) = nth xs i

pub record IsNames (max : ℕ) (t : Names) : Type 0 where
  pub in_range : t.count ≤ max
  pub ids : (i : ℕ) → i < t.count → (t.entries i).id ≡ i + 1
  pub ended : (i : ℕ) → i < t.count → (t.entries i).name 31 ≡ 0

pub find-position :
    (entries : ℕ → NameIdMapping) (name : List ℕ) (i n : ℕ)
    → find_name entries name i n ≡ position (until_nul name) (listed entries i n) i
unfolding find_name position listed
find-position entries name i zero = refl
find-position entries name i (suc n) =
    ap (λ r. if same_text (c_string 32 (entries i).name) (until_nul name) then some i else r)
      (find-position entries name (i + 1) n)

pub length-listed : (entries : ℕ → NameIdMapping) (i n : ℕ) → length (listed entries i n) ≡ n
unfolding listed
length-listed entries i zero = refl
length-listed entries i (suc n) = ap suc (length-listed entries (i + 1) n)

-- A new entry behind the last extends the list.
pub listed-update :
    (entries : ℕ → NameIdMapping) (e : NameIdMapping) (i n k : ℕ)
    → i + n ≡ k
    → listed (update entries k e) i (suc n) ≡ listed entries i n ++ (c_string 32 e.name ∷ [])
unfolding listed
listed-update entries e i zero k h =
    ap (λ (x : NameIdMapping). c_string 32 x.name ∷ [])
      (ap (update entries k e) {x = i} {y = k} (omega arith) ∙ update_self entries k e)
listed-update entries e i (suc n) k h =
    ap₂ (λ (x : NameIdMapping) xs. c_string 32 x.name ∷ xs) (update_ne entries k i e (omega arith))
      (listed-update entries e (i + 1) n k (omega arith))

-- The place found is in the list.
pub position-lt :
    (text : List ℕ) (names : List (List ℕ)) (i j : ℕ)
    → position text names i ≡ some j
    → j < i + length names
unfolding position
position-lt text [] i j e = absurd (ground arith)
position-lt text (x ∷ xs) i j e = elim (Bool-cases (same_text x text)) [
  | inl here ↦
      let same : some i ≡ some j =
        ap (λ b. if b then some i else position text xs (i + 1)) (sym here) ∙ e in
      ground arith
  | inr later ↦
      let ih =
        position-lt text xs (i + 1) j
          (ap (λ b. if b then some i else position text xs (i + 1)) (sym later) ∙ e) in
      omega (arith, ih)
]
