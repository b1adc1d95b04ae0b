-- ===== src/MemoryPool/HandOver.antt =====
-- Blocks that go from one thread to another while threads share a pool
-- (include/oneplog/internal/memory_pool.hpp).
use oneplog.Prelude.{
  ℕ, ◌≡◌, ◌≢◌, ◌⊎◌, inl, inr, ◌∙◌, ap, sym, subst, Bool, true, false, ◌==◌, List, update, arith,
  Bool-cases,
}
use oneplog.MemoryPool.Chain.{has, IsChain}
use oneplog.MemoryPool.System.{System, passed_on}
use oneplog.MemoryPool.Invariant.{uses, in_hand, Thread}

pub record Inv (popper : ℕ) (s : System) : Type 0 where
  pub free : List ℕ
  pub chain : IsChain s.pool.next s.pool.head free
  pub threads : (i : ℕ) → Thread popper s.pool free i (s.pc i) (s.held i)
  pub single :
      (i j b : ℕ) → uses (s.pc i) (s.held i) b ≡ true → uses (s.pc j) (s.held j) b ≡ true → i ≡ j

-- Thread `j` gets the block `b` from thread `i`.
module _ (popper i j b : ℕ) (s : System) (v : Inv popper s) (h : s.held i b ≡ true) where
  abbrev after : ℕ → ℕ → Bool
  after = update (update s.held i (update (s.held i) b false)) j (update (s.held j) b true)

  holder : uses (s.pc i) (s.held i) b ≡ true
  holder = ground (arith, h)

  -- What a thread has afterwards it had before, but for the block that was passed on.
  after-held : (k c : ℕ) → after k c ≡ true → (s.held k c ≡ true) ⊎ ((k ≡ j) × (c ≡ b))
  after-held k c e = ground arith

  after-uses :
      (k c : ℕ)
      → uses (s.pc k) (after k) c ≡ true
      → (uses (s.pc k) (s.held k) c ≡ true) ⊎ ((k ≡ j) × (c ≡ b))
  after-uses k c u = ground (arith, after-held k c)

  not_holder : (i == j) ≡ false → uses (s.pc i) (after i) b ≢ true
  not_holder other u = let apart = (v.threads i).once b h in ground (arith, apart)

  after-user : (k : ℕ) → uses (s.pc k) (after k) b ≡ true → k ≡ j
  after-user k u = elim (after-uses k b u) [
    | inl before ↦
        let e : k ≡ i = v.single k i b before holder in
        let mine : uses (s.pc i) (after i) b ≡ true =
          subst (λ m. uses (s.pc m) (after m) b ≡ true) e u in
        elim (Bool-cases (i == j)) [
          | inl same ↦ e ∙ ground arith
          | inr other ↦ absurd (not_holder other mine)
        ]
    | inr (e, f) ↦ e
  ]

  -- The thread that gets the block did not have it in its local variables.
  in_hand-once : in_hand (s.pc j) ≢ b
  in_hand-once e =
      let nz = (v.threads i).nonzero b h in
      let same : j ≡ i = v.single j i b (ground (arith, e, nz)) holder in
      (v.threads i).once b h (ap (λ k. in_hand (s.pc k)) (sym same) ∙ e)

  after-Thread : (k : ℕ) → Thread popper s.pool v.free k (s.pc k) (after k)
  after-Thread k = record {
    apart = λ c u. elim (after-uses k c u) [
      | inl before ↦ (v.threads k).apart c before
      | inr (e, f) ↦ subst (λ d. has d v.free ≡ false) (sym f) ((v.threads i).apart b holder)
    ];
    nonzero = λ c u. elim (after-held k c u) [
      | inl before ↦ (v.threads k).nonzero c before
      | inr (e, f) ↦ subst (λ d. d ≢ 0) (sym f) ((v.threads i).nonzero b h)
    ];
    once = λ c u. elim (after-held k c u) [
      | inl before ↦ (v.threads k).once c before
      | inr (e, f) ↦ λ z. in_hand-once (ap (λ l. in_hand (s.pc l)) (sym e) ∙ z ∙ f)
    ];
    fine = (v.threads k).fine;
    alone = (v.threads k).alone;
  }

  after-single :
      (k l c : ℕ) → uses (s.pc k) (after k) c ≡ true → uses (s.pc l) (after l) c ≡ true → k ≡ l
  after-single k l c u u' = elim (after-uses k c u) [
    | inl x ↦ elim (after-uses l c u') [
      | inl y ↦ v.single k l c x y
      | inr (e, f) ↦ after-user k (subst (λ d. uses (s.pc k) (after k) d ≡ true) f u) ∙ sym e
    ]
    | inr (e, f) ↦ e ∙ sym (after-user l (subst (λ d. uses (s.pc l) (after l) d ≡ true) f u'))
  ]

  pub passed_on-Inv : Inv popper (passed_on i j b s)
  unfolding passed_on
  passed_on-Inv = record {
    free = v.free;
    chain = v.chain;
    threads = after-Thread;
    single = after-single;
  }
