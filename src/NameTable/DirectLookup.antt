-- ===== src/NameTable/DirectLookup.antt =====
-- Registering in `DirectMappingTable` and looking up afterwards
-- (include/oneplog/internal/direct_mapping_table.hpp).
use oneplog.Prelude.{
  ℕ, zero, suc, ◌^◌, ◌≤◌, ◌<◌, ◌≡◌, refl, ◌∙◌, ap, sym, Bool, true, false, ◌&&◌, List, ◌==◌,
  if◌then◌else◌, arith, take, ltb, leb, update, Bool-cases, inl, inr, ltb→lt, update_ne,
  update_self,
}
use oneplog.NameTable.FixedName.{until_nul, c_string-assign}
use oneplog.NameTable.Direct.{
  DirectTable, register, get_name, clear, is_registered, IsCounted, count_valid, invalidate,
  default_name,
}

count_valid-update :
    (valid : ℕ → Bool) (i n : ℕ) (b : Bool)
    → n ≤ i
    → count_valid (update valid i b) n ≡ count_valid valid n
unfolding count_valid
count_valid-update valid i zero b h = refl
count_valid-update valid i (suc n) b h =
    let rest = count_valid-update valid i n b (omega arith) in ground (arith, rest)

count_valid-set :
    (valid : ℕ → Bool) (i n : ℕ)
    → i < n
    → count_valid (update valid i true) n
      ≡ (if valid i then count_valid valid n else suc (count_valid valid n))
unfolding count_valid
count_valid-set valid i zero h = absurd (omega arith)
count_valid-set valid i (suc n) h = elim (Bool-cases (ltb i n)) [
  | inl inside ↦
      let rest = count_valid-set valid i n (ltb→lt i n inside) in
      let apart = update_ne valid i n true (omega (arith, ltb→lt i n inside)) in
      rw apart (ground (arith, rest))
  | inr last ↦
      let same : i ≡ n = ground arith in
      let rest = count_valid-update valid i n true (omega arith) in
      let set : update valid i true n ≡ true = ground arith in
      rw (set, rest, ap valid same) (ground arith)
]

count_valid-le : (valid : ℕ → Bool) (n : ℕ) → count_valid valid n ≤ n
unfolding count_valid
count_valid-le valid zero = omega arith
count_valid-le valid (suc n) = let rest = count_valid-le valid n in ground (arith, rest)

invalidate_below : (n : ℕ) (valid : ℕ → Bool) (i : ℕ) → i < n → invalidate n valid i ≡ false
unfolding invalidate
invalidate_below zero valid i h = absurd (omega arith)
invalidate_below (suc n) valid i h = elim (Bool-cases (ltb i n)) [
  | inl inside ↦
      update_ne (invalidate n valid) n i false (omega (arith, ltb→lt i n inside))
      ∙ invalidate_below n valid i (ltb→lt i n inside)
  | inr last ↦ let same : i ≡ n = ground arith in rw same (update_self (invalidate n valid) n false)
]

invalidate_above : (n : ℕ) (valid : ℕ → Bool) (i : ℕ) → n ≤ i → invalidate n valid i ≡ valid i
unfolding invalidate
invalidate_above zero valid i h = refl
invalidate_above (suc n) valid i h =
    update_ne (invalidate n valid) n i false (omega arith)
    ∙ invalidate_above n valid i (omega arith)

count_invalidated : (n : ℕ) (valid : ℕ → Bool) → count_valid (invalidate n valid) n ≡ 0
unfolding count_valid invalidate
count_invalidated zero valid = refl
count_invalidated (suc n) valid =
    let rest =
      count_valid-update (invalidate n valid) n n false (omega arith) ∙ count_invalidated n valid in
    let off = update_self (invalidate n valid) n false in rw (off, rest) refl

none_counted : (n : ℕ) → count_valid (λ _. false) n ≡ 0
unfolding count_valid
none_counted zero = refl
none_counted (suc n) = none_counted n

module _ (max_tid cap : ℕ) where
  -- Looking a thread up after `Register` gives the new name, truncated and cut at a NUL, for the
  -- thread registered, and what it gave before for every other.
  pub get_name-register :
      (t : DirectTable) (tid : ℕ) (name : List ℕ) (other : ℕ)
      → get_name max_tid cap (register max_tid cap t tid name).0 other ≡ (
          if (register max_tid cap t tid name).1 && (tid == other)
          then until_nul (take cap name)
          else get_name max_tid cap t other)
  unfolding register get_name
  get_name-register t tid name other =
      let stored = c_string-assign cap name (t.names tid) in ground (arith, stored)

  -- `Register` keeps the counter equal to the number of valid entries, with a table of fewer than
  -- 2 ^ 64 entries.
  pub register-IsCounted :
      (t : DirectTable) (tid : ℕ) (name : List ℕ)
      → max_tid < 2 ^ 64
      → IsCounted max_tid cap t
      → IsCounted max_tid cap (register max_tid cap t tid name).0
  unfolding register IsCounted
  register-IsCounted t tid name small counted = elim (Bool-cases (leb max_tid tid)) [
    | inl out ↦ rw out counted
    | inr inside ↦
        let set = count_valid-set t.valid tid max_tid (ground arith) in
        let bound = count_valid-le (update t.valid tid true) max_tid in
        rw inside (ground (arith, set, bound))
  ]

  -- After `Clear` no thread is registered, every lookup gives the default name, and the counter is
  -- again the number of valid entries.
  pub get_name-clear :
      (t : DirectTable) (tid : ℕ)
      → (get_name max_tid cap (clear max_tid cap t) tid ≡ default_name)
        × (is_registered max_tid cap (clear max_tid cap t) tid ≡ false)
        × IsCounted max_tid cap (clear max_tid cap t)
  unfolding get_name clear is_registered IsCounted
  get_name-clear t tid = elim (Bool-cases (leb max_tid tid)) [
    | inl out ↦ rw out (refl, refl, sym (count_invalidated max_tid t.valid))
    | inr inside ↦
        let off = invalidate_below max_tid t.valid tid (ground arith) in
        rw (inside, off) (refl, refl, sym (count_invalidated max_tid t.valid))
  ]
