-- ===== src/SharedMemory/NamesHeld.antt =====
-- The places of names in the list, and the longest name that an entry holds
-- (include/oneplog/internal/shared_memory.hpp).
use oneplog.Prelude.{
  ℕ, zero, suc, ◌+◌, ◌-◌, ◌≤◌, ◌<◌, ◌≡◌, refl, ◌∙◌, sym, ap, none, some, List, [], ◌∷◌, ◌++◌, ◌==◌,
  if◌then◌else◌, ltb, length, arith, Bool-cases, inl, inr,
}
use oneplog.NameTable.FixedName.{c_string, count_chars}
use oneplog.Snapshot.Bytes.{length-read}
use oneplog.SharedMemory.Names.{NameIdMapping}
use oneplog.Prelude.{same_text, same_text_refl, same_text-path}
use oneplog.SharedMemory.NamesSpec.{listed, position, nth}

module _ (text : List ℕ) where
  -- The place found holds the text.
  pub position-nth :
      (names : List (List ℕ)) (i j : ℕ)
      → position text names i ≡ some j
      → (i ≤ j) × (nth names (j - i) ≡ some text)
  unfolding position nth
  position-nth [] i j e = absurd (ground arith)
  position-nth (x ∷ xs) i j e = elim (Bool-cases (same_text x text)) [
    | inl here ↦
        let same : some i ≡ some j =
          ap (λ b. if b then some i else position text xs (i + 1)) (sym here) ∙ e in
        let index : i ≡ j = ground arith in
        let start : j - i ≡ 0 = omega arith in
        (omega arith, rw start (ap some (same_text-path x text here)))
    | inr later ↦
        let ih =
          position-nth xs (i + 1) j
            (ap (λ b. if b then some i else position text xs (i + 1)) (sym later) ∙ e) in
        let next : j - i ≡ suc (j - (i + 1)) = omega (arith, ih.0) in
        (omega (arith, ih.0), rw next ih.1)
  ]

  pub position-append :
      (names : List (List ℕ)) (i : ℕ)
      → position text names i ≡ none
      → position text (names ++ (text ∷ [])) i ≡ some (i + length names)
  unfolding position
  position-append [] i e = rw (same_text_refl text) (ap some (omega arith))
  position-append (x ∷ xs) i e = elim (Bool-cases (same_text x text)) [
    | inl here ↦ absurd (
        let same : some i ≡ none =
          ap (λ b. if b then some i else position text xs (i + 1)) (sym here) ∙ e in
        ground arith)
    | inr later ↦ rw later (
        position-append xs (i + 1)
          (ap (λ b. if b then some i else position text xs (i + 1)) (sym later) ∙ e)
        ∙ ap some (omega arith))
  ]

pub nth-append :
    (names : List (List ℕ)) (text : List ℕ) (k : ℕ)
    → nth (names ++ (text ∷ [])) k ≡ (if k == length names then some text else nth names k)
unfolding nth
nth-append [] text zero = refl
nth-append [] text (suc k) = ground arith
nth-append (x ∷ xs) text zero = ground arith
nth-append (x ∷ xs) text (suc k) = let ih = nth-append xs text k in ground arith

-- An entry that ends in a zero holds at most 31 characters.
count_chars-le : (d : ℕ → ℕ) (i n k : ℕ) → d (i + k) ≡ 0 → k ≤ n → count_chars d i n ≤ k
unfolding count_chars
count_chars-le d i zero k z h = omega arith
count_chars-le d i (suc n) zero z h = ground arith
count_chars-le d i (suc n) (suc k) z h =
    let ih = count_chars-le d (i + 1) n k (ap d (omega arith) ∙ z) (omega arith) in ground arith

pub length-c_string : (d : ℕ → ℕ) → d 31 ≡ 0 → length (c_string 32 d) ≤ 31
unfolding c_string
length-c_string d z =
    omega (arith, length-read d 0 (count_chars d 0 32), count_chars-le d 0 32 31 z (omega arith))

pub nth-listed :
    (entries : ℕ → NameIdMapping) (i n k : ℕ)
    → nth (listed entries i n) k
      ≡ (if ltb k n then some (c_string 32 (entries (i + k)).name) else none)
unfolding nth listed
nth-listed entries i zero k = ground arith
nth-listed entries i (suc n) zero = let start : i + 0 ≡ i = omega arith in rw start (ground arith)
nth-listed entries i (suc n) (suc k) =
    let ih = nth-listed entries (i + 1) n k in
    let index : i + suc k ≡ i + 1 + k = omega arith in rw index (ground arith)

-- No entry that ends in a zero holds a longer text.
pub position-long :
    (text : List ℕ) (entries : ℕ → NameIdMapping) (i n : ℕ)
    → 31 < length text
    → ((k : ℕ) → k < i + n → (entries k).name 31 ≡ 0)
    → position text (listed entries i n) i ≡ none
unfolding position listed
position-long text entries i zero h ended = refl
position-long text entries i (suc n) h ended =
    let here = c_string 32 (entries i).name in
    let rest = position-long text entries (i + 1) n h (λ k l. ended k (omega arith)) in
    elim (Bool-cases (same_text here text)) [
      | inl same ↦ absurd (
          omega (
            arith,
            ap length (same_text-path here text same),
            length-c_string (entries i).name (ended i (omega arith)),
          ))
      | inr differ ↦ rw differ rest
    ]
