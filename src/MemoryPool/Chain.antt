-- ===== src/MemoryPool/Chain.antt =====
-- The blocks that the free list links (include/oneplog/internal/memory_pool.hpp).
use oneplog.Prelude.{
  ℕ, ◌≡◌, ◌≢◌, refl, sym, subst, Bool, false, ◌||◌, ◌==◌, List, [], ◌∷◌, update, update_ne,
  update_self, arith,
}

abbrev pub has : ℕ → List ℕ → Bool
has b [] = false
has b (c ∷ cs) = (b == c) || has b cs

-- From the block `p` the next pointers lead through the blocks listed, all different, to null.
abbrev pub IsChain : (ℕ → ℕ) → ℕ → List ℕ → Type 0
IsChain next p [] = p ≡ 0
IsChain next p (b ∷ bs) = (p ≡ b) × (b ≢ 0) × (has b bs ≡ false) × IsChain next (next b) bs

-- A store to a block that is not in the chain.
pub IsChain-update :
    (next : ℕ → ℕ) (p : ℕ) (bs : List ℕ) (c v : ℕ)
    → has c bs ≡ false
    → IsChain next p bs
    → IsChain (update next c v) p bs
IsChain-update next p [] c v h ch = ch
IsChain-update next p (b ∷ bs) c v h (e, nz, out, rest) =
    let apart : c ≢ b = ground arith in
    let same : update next c v b ≡ next b = update_ne next c b v apart in
    let rest' = IsChain-update next (next b) bs c v (ground arith) rest in
    (e, nz, out, subst (λ q. IsChain (update next c v) q bs) (sym same) rest')

pub IsChain-cons :
    (next : ℕ → ℕ) (p : ℕ) (bs : List ℕ) (b : ℕ)
    → b ≢ 0
    → has b bs ≡ false
    → IsChain next p bs
    → IsChain (update next b p) b (b ∷ bs)
IsChain-cons next p bs b nz out ch = (
  refl,
  nz,
  out,
  subst (λ q. IsChain (update next b p) q bs) (sym (update_self next b p))
      (IsChain-update next p bs b p out ch),
)
