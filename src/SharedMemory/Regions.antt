-- ===== src/SharedMemory/Regions.antt =====
-- The parts of a segment, one behind the other
-- (include/oneplog/internal/shared_memory.hpp).
use Prim.Native.Nat.{bit_and, bit_and-bitwise, digits, min}
use native.Mathlib.Nat.{pow-suc}
use oneplog.Prelude.{
  List, [], ◌∷◌, ℕ, zero, suc, ◌+◌, ◌-◌, ◌*◌, ◌/◌, ◌%◌, ◌^◌, ◌≤◌, ◌<◌, ◌≡◌, refl, ◌∙◌, ap, arith,
}
use oneplog.RingBuffer.State.{size_mod, add_size, sub_size}
use oneplog.SharedMemory.Layout.{
  align_up, mul_size, cache_line_size, Sizes, slots_offset, buffer_offset, ring_required_size,
  config_offset, name_table_offset, ring_offset, required_size,
}

abbrev masked : ℕ → ℕ → ℕ → ℕ
masked fuel a mask = digits (λ b. zero) min fuel a mask

masked-zero : (fuel m : ℕ) → masked fuel 0 m ≡ 0
masked-zero zero m = refl
masked-zero (suc fuel) m = refl

-- A mask with the lowest digit 0.
masked-even : (fuel a m : ℕ) → masked (suc fuel) a (m * 2) ≡ masked fuel (a / 2) m * 2
masked-even fuel zero m = omega (arith, masked-zero fuel m)
masked-even fuel (suc a) m =
    let half : m * 2 / 2 ≡ m = omega arith in omega (arith, ap (masked fuel (suc a / 2)) half)

-- A mask of `k` ones.
masked-ones : (fuel k a : ℕ) → a ≤ fuel → a < 2 ^ k → masked fuel a (2 ^ k - 1) ≡ a
masked-ones zero k zero h l = refl
masked-ones zero k (suc a) h l = absurd (omega arith)
masked-ones (suc fuel) k zero h l = refl
masked-ones (suc fuel) zero (suc a) h l = absurd (omega arith)
masked-ones (suc fuel) (suc k) (suc a) h l =
    let double = pow-suc 2 k in
    let half : (2 ^ suc k - 1) / 2 ≡ 2 ^ k - 1 = omega (arith, double) in
    let ih = masked-ones fuel k (suc a / 2) (omega arith) (omega (arith, double)) in
    omega (arith, double, ap (masked fuel (suc a / 2)) half, ih)

-- `m` shifted left by `j`, and `a` with its `j` lowest digits cleared.
unfoldable shifted : ℕ → ℕ → ℕ
shifted zero m = m
shifted (suc j) m = shifted j m * 2

unfoldable cleared : ℕ → ℕ → ℕ
cleared zero a = a
cleared (suc j) a = cleared j (a / 2) * 2

masked-shifted :
    (j fuel k a : ℕ)
    → a ≤ fuel
    → a < shifted j (2 ^ k)
    → masked fuel a (shifted j (2 ^ k - 1)) ≡ cleared j a
unfolding shifted cleared
masked-shifted zero fuel k a h l = masked-ones fuel k a h l
masked-shifted (suc j) zero k zero h l =
    omega (arith, masked-shifted j 0 k 0 h (omega arith), masked-zero 0 (shifted j (2 ^ k - 1)))
masked-shifted (suc j) zero k (suc a) h l = absurd (omega arith)
masked-shifted (suc j) (suc fuel) k a h l =
    let ih = masked-shifted j fuel k (a / 2) (omega arith) (omega arith) in
    omega (arith, masked-even fuel a (shifted j (2 ^ k - 1)), ih)

-- The mask of `~63`.
mask-lem : (a : ℕ) → a < size_mod → bit_and a (size_mod - 64) ≡ a / 64 * 64
unfolding shifted cleared
mask-lem a h =
    let six = masked-shifted 6 a 58 a (omega arith) (omega arith) in
    omega (arith, bit_and-bitwise a (size_mod - 64), six)

align_up_lem : (v : ℕ) → v + 64 < size_mod → align_up v cache_line_size ≡ (v + 63) / 64 * 64
unfolding align_up
align_up_lem v h =
    let value : sub_size (add_size v 64) 1 ≡ v + 63 = ground arith in
    ap (λ (x : ℕ). bit_and x (size_mod - 64)) value ∙ mask-lem (v + 63) (omega arith)

-- A part of the segment: its first byte and its size.
pub record Region : Type 0 where
  pub from : ℕ
  pub bytes : ℕ

-- The bytes of the whole segment, were nothing aligned.
unfoldable pub bytes_needed : Sizes → ℕ → ℕ
bytes_needed z capacity =
    z.metadata + z.config + z.name_table + z.header + z.slot * capacity + z.item * capacity

-- The parts of a segment, as `Create` places them.
unfoldable pub parts : Sizes → ℕ → List Region
parts z capacity =
    record { from = 0; bytes = z.metadata }
    ∷ record { from = config_offset z; bytes = z.config }
    ∷ record { from = name_table_offset z; bytes = z.name_table }
    ∷ record { from = ring_offset z; bytes = z.header }
    ∷ record { from = ring_offset z + slots_offset z; bytes = z.slot * capacity }
    ∷ record { from = ring_offset z + buffer_offset z capacity; bytes = z.item * capacity }
    ∷ []

-- The parts lie one behind the other between `low` and `high`, each from a cache
-- line's start.
unfoldable pub ArePacked : ℕ → List Region → ℕ → Type 0
ArePacked low [] high = low ≤ high
ArePacked low (r ∷ rs) high =
    (low ≤ r.from) × ((r.from % 64 ≡ 0) × ArePacked (r.from + r.bytes) rs high)

-- With sizes that leave room for the alignment in `size_t`, the metadata, the
-- configuration, the name table, the ring's header, its slots and its items lie one
-- behind the other without overlap, each from a cache line's start, and end within the
-- size that `CalculateRequiredSize` gives.
pub required_size-ArePacked :
    (z : Sizes)
    → (capacity : ℕ) → bytes_needed z capacity + 384 < size_mod
    → ArePacked 0 (parts z capacity) (required_size z capacity)
unfolding bytes_needed parts ArePacked config_offset name_table_offset ring_offset slots_offset
    buffer_offset required_size ring_required_size
required_size-ArePacked z capacity h =
    let m = align_up_lem z.metadata (omega (arith, h)) in
    let c = align_up_lem z.config (omega (arith, h)) in
    let n = align_up_lem z.name_table (omega (arith, h)) in
    let d = align_up_lem z.header (omega (arith, h)) in
    let slots : mul_size z.slot capacity ≡ z.slot * capacity = omega (arith, h) in
    let items : mul_size z.item capacity ≡ z.item * capacity = omega (arith, h) in
    let s = align_up_lem (z.slot * capacity) (omega (arith, h)) in
    let i = align_up_lem (z.item * capacity) (omega (arith, h)) in
    rw (m, c, n, d, slots, items, s, i) (ground arith)
