-- ===== src/MemoryPool/Ownership.antt =====
-- Who has which block while threads share a pool (include/oneplog/internal/memory_pool.hpp).
use mathlib.Core.Path.{fun_ext}
use oneplog.Prelude.{
  ℕ, ◌≡◌, ◌≢◌, inl, inr, refl, ◌∙◌, ap, sym, subst, Bool, true, false, ◌==◌, List, update,
  if◌then◌else◌, ◌⊎◌, arith, Bool-cases,
}
use oneplog.MemoryPool.Pool.{
  Pool, Pc, idle, pop_load, pop_next, push_load, push_store, popped, advance,
}
use oneplog.MemoryPool.Chain.{has, IsChain}
use oneplog.MemoryPool.System.{
  System, is_running, Step, call_allocate, call_deallocate, hand_over, access, spurious_pop,
  spurious_push, return_null, return_block, moved, handed, at_rest, Reach, start, later,
}
use oneplog.MemoryPool.Invariant.{uses, Thread, Moved}
use oneplog.MemoryPool.Moves.{
  access-Moved, take-Moved, give-Moved, reloaded-Moved, retried-Moved, quiet-Moved,
}
use oneplog.MemoryPool.Pool.{pop_cas, push_cas}
use oneplog.MemoryPool.HandOver.{Inv, passed_on-Inv}

update_same : {A : Type 0} (f : ℕ → A) (i : ℕ) → update f i (f i) ≡ f
update_same f i = fun_ext (λ j. ground arith)

-- Thread `i` has made a move; the others stand where they stood.
Inv-Moved :
    (popper : ℕ) (s : System) (v : Inv popper s) (i : ℕ) (m' : Pool) (q' : Pc) (held' : ℕ → Bool)
    → Moved popper s.pool v.free i (s.pc i) (s.held i) m' q' held'
    → Inv popper (record { pool = m'; pc = update s.pc i q'; held = update s.held i held' })
Inv-Moved popper s v i m' q' held' mv = record {
  free = mv.free';
  chain = mv.chain;
  threads = λ j. elim (Bool-cases (i == j)) [
    | inl same ↦
        let e : i ≡ j = ground arith in
        rw same (subst (λ k. Thread popper m' mv.free' k q' held') e mv.thread)
    | inr other ↦ rw other (
        mv.others j (s.pc j) (s.held j) (λ e. absurd (ground arith))
          (not_mine j (λ e. absurd (ground arith))) (v.threads j))
  ];
  single = λ j k b uj uk. both j k b (Bool-cases (i == j)) (Bool-cases (i == k)) uj uk;
}
  where
    not_mine :
        (j : ℕ)
        → j ≢ i
        → (b : ℕ) → uses (s.pc i) (s.held i) b ≡ true
        → uses (s.pc j) (s.held j) b ≡ false
    not_mine j ne b u = elim (Bool-cases (uses (s.pc j) (s.held j) b)) [
      | inl too ↦ absurd (ne (v.single j i b too u))
      | inr out ↦ out
    ]

    alone_now :
        (k b : ℕ)
        → k ≢ i
        → uses q' held' b ≡ true
        → uses (s.pc k) (s.held k) b ≡ true
        → (mine : (uses (s.pc i) (s.held i) b ≡ true) ⊎ (has b v.free ≡ true)) → ⊥
    alone_now k b ne u uk (inl u') = ne (v.single k i b uk u')
    alone_now k b ne u uk (inr inside) =
        absurd (ground (arith, sym inside ∙ (v.threads k).apart b uk))

    both :
        (j k b : ℕ)
        → ((i == j) ≡ true) ⊎ ((i == j) ≡ false)
        → ((i == k) ≡ true) ⊎ ((i == k) ≡ false)
        → uses (update s.pc i q' j) (update s.held i held' j) b ≡ true
        → uses (update s.pc i q' k) (update s.held i held' k) b ≡ true
        → j ≡ k
    both j k b (inl e) (inl f) uj uk = ground arith
    both j k b (inr e) (inr f) uj uk =
        v.single j k b
          (ap (λ c. uses (if c then q' else s.pc j) (if c then held' else s.held j) b) (sym e) ∙ uj)
          (ap (λ c. uses (if c then q' else s.pc k) (if c then held' else s.held k) b) (sym f) ∙ uk)
    both j k b (inl e) (inr f) uj uk =
        let mine : uses q' held' b ≡ true =
          ap (λ c. uses (if c then q' else s.pc j) (if c then held' else s.held j) b) (sym e)
          ∙ uj in
        absurd (
          alone_now k b (λ z. absurd (ground arith)) mine
            (ap (λ c. uses (if c then q' else s.pc k) (if c then held' else s.held k) b) (sym f)
              ∙ uk)
            (mv.gained b mine))
    both j k b (inr e) (inl f) uj uk =
        let mine : uses q' held' b ≡ true =
          ap (λ c. uses (if c then q' else s.pc k) (if c then held' else s.held k) b) (sym f)
          ∙ uk in
        absurd (
          alone_now j b (λ z. absurd (ground arith)) mine
            (ap (λ c. uses (if c then q' else s.pc j) (if c then held' else s.held j) b) (sym e)
              ∙ uj)
            (mv.gained b mine))

module _ (popper : ℕ) (may : ℕ → Bool) (only : (i : ℕ) → may i ≡ true → i ≡ popper) (s : System)
    (v : Inv popper s) where
  -- A move that hands no block over.
  kept-Inv :
      (i : ℕ) (m' : Pool) (q q' : Pc)
      → s.pc i ≡ q
      → (Thread popper s.pool v.free i q (s.held i)
          → Moved popper s.pool v.free i q (s.held i) m' q' (s.held i))
      → Inv popper (record { pool = m'; pc = update s.pc i q'; held = s.held })
  kept-Inv i m' q q' e move =
      let t = subst (λ k. Thread popper s.pool v.free i k (s.held i)) e (v.threads i) in
      let mv =
        subst (λ k. Moved popper s.pool v.free i k (s.held i) m' q' (s.held i)) (sym e) (move t) in
      subst (λ h. Inv popper (record { pool = m'; pc = update s.pc i q'; held = h }))
        (update_same s.held i) (Inv-Moved popper s v i m' q' (s.held i) mv)

  handed-Inv :
      (i b : ℕ) (q q' : Pc) (has_it : Bool)
      → s.pc i ≡ q
      → (Thread popper s.pool v.free i q (s.held i)
          → Moved popper s.pool v.free i q (s.held i) s.pool q' (update (s.held i) b has_it))
      → Inv popper (handed i b has_it q' s)
  unfolding handed
  handed-Inv i b q q' has_it e move =
      let t = subst (λ k. Thread popper s.pool v.free i k (s.held i)) e (v.threads i) in
      let held' = update (s.held i) b has_it in
      Inv-Moved popper s v i s.pool q' held'
        (subst (λ k. Moved popper s.pool v.free i k (s.held i) s.pool q' held') (sym e) (move t))

  moved-Inv : (i : ℕ) → is_running (s.pc i) ≡ true → Inv popper (moved i s)
  unfolding moved
  moved-Inv i run =
      kept-Inv i (advance (s.pc i) s.pool).1 (s.pc i) (advance (s.pc i) s.pool).0 refl
        (access-Moved popper s.pool v.free i (s.held i) v.chain (s.pc i) run)

  Step-Inv : {t : System} → Step may s t → Inv popper t
  Step-Inv (call_allocate i e may_i) = kept-Inv i s.pool idle pop_load e (λ t.
      quiet-Moved popper s.pool v.free i (s.held i) v.chain idle pop_load t refl tt
        (λ _. only i may_i))
  Step-Inv (call_deallocate i b e h) =
      handed-Inv i b idle (push_load b) false e
        (λ t. give-Moved popper s.pool v.free i (s.held i) v.chain b t h)
  Step-Inv (hand_over i j b h) = passed_on-Inv popper i j b s v h
  Step-Inv (access i run) = moved-Inv i run
  Step-Inv (spurious_pop i old new e) =
      kept-Inv i s.pool (pop_cas old new) (pop_next s.pool.head) e
        (retried-Moved popper s.pool v.free i (s.held i) v.chain (pop_cas old new) refl)
  Step-Inv (spurious_push i b old e) =
      kept-Inv i s.pool (push_cas b old) (push_store b s.pool.head) e
        (reloaded-Moved popper s.pool v.free i (s.held i) v.chain b old)
  Step-Inv (return_null i e) = kept-Inv i s.pool (popped 0) idle e (λ t.
      quiet-Moved popper s.pool v.free i (s.held i) v.chain (popped 0) idle t refl tt
        (λ z. absurd (ground arith)))
  Step-Inv (return_block i b e nz) =
      handed-Inv i b (popped b) idle true e
        (λ t. take-Moved popper s.pool v.free i (s.held i) v.chain b t nz)

at_rest-Inv :
    (popper : ℕ) (m : Pool) (free : List ℕ) → IsChain m.next m.head free → Inv popper (at_rest m)
at_rest-Inv popper m free c = record {
  free = free;
  chain = c;
  threads = λ i. record {
    apart = λ b u. absurd (ground arith);
    nonzero = λ b u. absurd (ground arith);
    once = λ b u. absurd (ground arith);
    fine = tt;
    alone = λ u. absurd (ground arith);
  };
  single = λ i j b u u'. absurd (ground arith);
}

Reach-Inv :
    (popper : ℕ) (may : ℕ → Bool) (m : Pool) (free : List ℕ) {s : System}
    → ((i : ℕ) → may i ≡ true → i ≡ popper)
    → IsChain m.next m.head free
    → Reach may m s
    → Inv popper s
Reach-Inv popper may m free only c start = at_rest-Inv popper m free c
Reach-Inv popper may m free only c (later {s} r step) =
    Step-Inv popper may only s (Reach-Inv popper may m free only c r) step

-- If one thread only calls `Allocate`, while any threads pass the blocks that they have to each
-- other and call `Deallocate` with them, then in every state that the pool reaches, whatever the
-- order of the atomic accesses, no block is in use by two threads, and the free list is a chain
-- without any block that is in use.
pub Reach-single :
    (popper : ℕ) (may : ℕ → Bool) (m : Pool) (free : List ℕ) {s : System}
    → ((i : ℕ) → may i ≡ true → i ≡ popper)
    → IsChain m.next m.head free
    → Reach may m s
    → ((i j b : ℕ) → s.held i b ≡ true → s.held j b ≡ true → i ≡ j)
      × ((now : List ℕ) × IsChain s.pool.next s.pool.head now
          × ((i b : ℕ) → s.held i b ≡ true → has b now ≡ false))
Reach-single popper may m free {s} only c r =
    let v = Reach-Inv popper may m free only c r in
    (
      (λ i j b hi hj. v.single i j b (using i b hi) (using j b hj)),
      (v.free, v.chain, λ i b h. (v.threads i).apart b (using i b h)),
    )
  where
    using : (i b : ℕ) → s.held i b ≡ true → uses (s.pc i) (s.held i) b ≡ true
    using i b h = ground arith
