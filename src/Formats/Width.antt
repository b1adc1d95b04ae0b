-- ===== src/Formats/Width.antt =====
-- How long the pieces of a line are (include/oneplog/internal/static_formats.hpp).
use oneplog.Prelude.{
  ℕ, zero, suc, ◌-◌, ◌/◌, ◌<◌, ◌≡◌, refl, List, ◌++◌, leb, length, replicate, length-append,
  length-take, to_string, Bool-cases, inl, inr, arith, length-to_string, digit_limit,
}
use oneplog.Formats.Text.{format_fixed_width_name, zero_padded}

pub length-replicate : (n c : ℕ) → length (replicate n c) ≡ n
length-replicate zero c = refl
length-replicate (suc n) c = let ih = length-replicate n c in omega (arith, ih)

-- A name of fixed width has six characters, whatever the name.
pub length-format_fixed_width_name : (name : List ℕ) → length (format_fixed_width_name name) ≡ 6
unfolding format_fixed_width_name
length-format_fixed_width_name name = elim (Bool-cases (leb 6 (length name))) [
  | inl long ↦ let size = length-take 6 name in rw long (ground arith)
  | inr short ↦
      let padding = 6 - length name in
      let right = padding - padding / 2 in
      let left_size = length-replicate (padding / 2) 32 in
      let right_size = length-replicate right 32 in
      let inner = length-append name (replicate right 32) in
      let outer = length-append (replicate (padding / 2) 32) (name ++ replicate right 32) in
      rw short (ground arith)
]

pub length-zero_padded :
    (width n : ℕ) → 0 < width → n < digit_limit width → length (zero_padded width n) ≡ width
unfolding zero_padded
length-zero_padded width n h l =
    let size = length-to_string width n h l in
    let zeros = length-replicate (width - length (to_string n)) 48 in
    let all = length-append (replicate (width - length (to_string n)) 48) (to_string n) in
    omega (arith, size, zeros, all)
