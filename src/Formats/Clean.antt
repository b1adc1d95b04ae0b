-- ===== src/Formats/Clean.antt =====
-- Text without a NUL, which a buffer that is large enough holds whole
-- (include/oneplog/internal/static_formats.hpp).
use oneplog.Prelude.{
  ℕ, zero, suc, ◌-◌, ◌≤◌, ◌<◌, ◌≡◌, refl, ◌∙◌, sym, ap, List, [], ◌∷◌, ◌++◌, ◌==◌, append-nil,
  append_assoc, length, take_all, replicate, to_string, AllDigits, to_string-AllDigits, Bool-cases,
  inl, inr, false, arith,
}
use oneplog.NameTable.FixedName.{until_nul}
use oneplog.Formats.Text.{zero_padded, buffered}

-- Nothing of the text is cut, whatever follows it.
abbrev pub IsClean : List ℕ → Type 0
IsClean text = (rest : List ℕ) → until_nul (text ++ rest) ≡ text ++ until_nul rest

pub cons-IsClean : (c : ℕ) (text : List ℕ) → (c == 0) ≡ false → IsClean text → IsClean (c ∷ text)
cons-IsClean c text h clean rest = rw h (ap (λ t. c ∷ t) (clean rest))

pub append-IsClean : (xs ys : List ℕ) → IsClean xs → IsClean ys → IsClean (xs ++ ys)
append-IsClean xs ys clean_xs clean_ys rest =
    ap until_nul (append_assoc xs ys rest)
    ∙ clean_xs (ys ++ rest)
    ∙ ap (λ t. xs ++ t) (clean_ys rest)
    ∙ sym (append_assoc xs ys (until_nul rest))

pub until_nul-IsClean : (text : List ℕ) → IsClean (until_nul text)
until_nul-IsClean [] rest = refl
until_nul-IsClean (c ∷ cs) rest = elim (Bool-cases (c == 0)) [
  | inl nul ↦ rw nul refl
  | inr char ↦ rw (char, char) (ap (λ t. c ∷ t) (until_nul-IsClean cs rest))
]

replicate-IsClean : (n : ℕ) → IsClean (replicate n 48)
replicate-IsClean zero rest = refl
replicate-IsClean (suc n) rest = ap (λ t. 48 ∷ t) (replicate-IsClean n rest)

AllDigits-IsClean : (text : List ℕ) → AllDigits text → IsClean text
AllDigits-IsClean [] h rest = refl
AllDigits-IsClean (c ∷ cs) h rest =
    cons-IsClean c cs (let low = h.0 in ground arith) (AllDigits-IsClean cs h.1) rest

pub to_string-IsClean : (n : ℕ) → IsClean (to_string n)
to_string-IsClean n = AllDigits-IsClean (to_string n) (to_string-AllDigits n)

pub zero_padded-IsClean : (width n : ℕ) → IsClean (zero_padded width n)
unfolding zero_padded
zero_padded-IsClean width n =
    append-IsClean (replicate (width - length (to_string n)) 48) (to_string n)
      (replicate-IsClean (width - length (to_string n))) (to_string-IsClean n)

pub buffered-whole :
    (size : ℕ) (text : List ℕ) → length text < size → IsClean text → buffered size text ≡ text
unfolding buffered
buffered-whole size text h clean =
    ap until_nul (take_all (size - 1) text (omega arith))
    ∙ ap until_nul (sym (append-nil text))
    ∙ clean []
    ∙ append-nil text

pub length-until_nul : (text : List ℕ) → length (until_nul text) ≤ length text
length-until_nul [] = omega arith
length-until_nul (c ∷ cs) = let ih = length-until_nul cs in ground arith
