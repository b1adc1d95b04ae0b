-- ===== src/Prelude/Text.antt =====
-- Texts as lists of characters: comparison (`std::strcmp`, `std::string::operator==`) and the
-- decimal digits of a number (`std::to_string`).
use Prim.Native.Nat.{ℕ, zero, suc, ◌+◌, ◌*◌, ◌-◌, ◌/◌, ◌%◌, ◌≤◌, ◌<◌}
use mathlib.Core.Path.{◌≡◌, refl, sym, ap, ap₂, ◌∙◌}
use mathlib.Core.Bool.{Bool, true, false, ◌&&◌}
use mathlib.Core.List.{List, [], ◌∷◌, ◌++◌}
use native.Mathlib.Omega.{arith}
use oneplog.Prelude.Tests.{◌==◌, ltb, if◌then◌else◌, Bool-cases}
use oneplog.Prelude.Lists.{length, length-append}
use mathlib.Core.Logic.{inl, inr}

unfoldable pub same_text : List ℕ → List ℕ → Bool
same_text [] [] = true
same_text [] (d ∷ ds) = false
same_text (c ∷ cs) [] = false
same_text (c ∷ cs) (d ∷ ds) = (c == d) && same_text cs ds

pub same_text_refl : (text : List ℕ) → same_text text text ≡ true
unfolding same_text
same_text_refl [] = refl
same_text_refl (c ∷ cs) = let ih = same_text_refl cs in ground arith

pub same_text-path : (x y : List ℕ) → same_text x y ≡ true → x ≡ y
unfolding same_text
same_text-path [] [] e = refl
same_text-path [] (d ∷ ds) e = absurd (ground arith)
same_text-path (c ∷ cs) [] e = absurd (ground arith)
same_text-path (c ∷ cs) (d ∷ ds) e = ap₂ ◌∷◌ (ground arith) (same_text-path cs ds (ground arith))

-- The digits of a number, with fuel; the number and one more are enough.
digits : ℕ → ℕ → List ℕ
digits zero n = []
digits (suc fuel) n =
    let rest = digits fuel (n / 10) in
    if ltb n 10 then (48 + n) ∷ [] else rest ++ ((48 + n % 10) ∷ [])

unfoldable pub to_string : ℕ → List ℕ
unfolding digits
to_string n = digits (suc n) n

read_digits : ℕ → List ℕ → ℕ
read_digits acc [] = acc
read_digits acc (c ∷ cs) = read_digits (acc * 10 + (c - 48)) cs

read_digits-append :
    (acc : ℕ) (xs ys : List ℕ) → read_digits acc (xs ++ ys) ≡ read_digits (read_digits acc xs) ys
unfolding read_digits
read_digits-append acc [] ys = refl
read_digits-append acc (x ∷ xs) ys = read_digits-append (acc * 10 + (x - 48)) xs ys

read_digits-digits : (fuel n : ℕ) → n < fuel → read_digits 0 (digits fuel n) ≡ n
unfolding read_digits digits
read_digits-digits zero n h = absurd (omega arith)
read_digits-digits (suc fuel) n h =
    let ih = λ (more : ltb n 10 ≡ false). read_digits-digits fuel (n / 10) (ground arith) in
    let split = read_digits-append 0 (digits fuel (n / 10)) ((48 + n % 10) ∷ []) in
    ground (arith, ih, split)

-- The numbers with at most so many digits.
abbrev pub digit_limit : ℕ → ℕ
digit_limit zero = 1
digit_limit (suc k) = 10 * digit_limit k

length-digits : (fuel k n : ℕ) → 0 < k → n < digit_limit k → length (digits fuel n) ≤ k
unfolding digits
length-digits zero k n h l = omega arith
length-digits (suc fuel) zero n h l = absurd (omega arith)
length-digits (suc fuel) (suc zero) n h l =
    let small : ltb n 10 ≡ true = ground arith in rw small (omega arith)
length-digits (suc fuel) (suc (suc k)) n h l =
    let ih = length-digits fuel (suc k) (n / 10) (omega arith) (omega (arith, l)) in
    let more = length-append (digits fuel (n / 10)) ((48 + n % 10) ∷ []) in
    elim (Bool-cases (ltb n 10)) [
      | inl few ↦ rw few (omega arith)
      | inr many ↦ rw many (omega (arith, ih, more))
    ]

pub length-to_string : (k n : ℕ) → 0 < k → n < digit_limit k → length (to_string n) ≤ k
unfolding to_string
length-to_string k n h l = length-digits (suc n) k n h l

-- Every digit is the code of one.
abbrev pub AllDigits : List ℕ → Type 0
AllDigits [] = Unit
AllDigits (c ∷ cs) = (48 ≤ c) × AllDigits cs

append-AllDigits : (xs : List ℕ) (c : ℕ) → AllDigits xs → 48 ≤ c → AllDigits (xs ++ (c ∷ []))
append-AllDigits [] c h k = (k, tt)
append-AllDigits (x ∷ xs) c h k = (h.0, append-AllDigits xs c h.1 k)

digits-AllDigits : (fuel n : ℕ) → AllDigits (digits fuel n)
unfolding digits
digits-AllDigits zero n = tt
digits-AllDigits (suc fuel) n = elim (Bool-cases (ltb n 10)) [
  | inl few ↦ rw few (omega arith, tt)
  | inr many ↦ rw many (
      append-AllDigits (digits fuel (n / 10)) (48 + n % 10) (digits-AllDigits fuel (n / 10))
        (omega arith))
]

pub to_string-AllDigits : (n : ℕ) → AllDigits (to_string n)
unfolding to_string
to_string-AllDigits n = digits-AllDigits (suc n) n

-- Two numbers with the same digits are the same.
pub to_string-injective : (m n : ℕ) → to_string m ≡ to_string n → m ≡ n
unfolding to_string
to_string-injective m n e =
    sym (read_digits-digits (suc m) m (omega arith))
    ∙ ap (read_digits 0) e
    ∙ read_digits-digits (suc n) n (omega arith)
