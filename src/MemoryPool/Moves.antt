-- ===== src/MemoryPool/Moves.antt =====
-- What each step of a thread leaves, to itself and to the others
-- (include/oneplog/internal/memory_pool.hpp).
use oneplog.Prelude.{
  ℕ, ◌≡◌, ◌≢◌, inl, inr, refl, ◌∙◌, ap, sym, subst, Bool, true, false, ◌||◌, ◌&&◌, not, ◌==◌, List,
  [], ◌∷◌, update, update_self, arith, Bool-cases,
}
use oneplog.MemoryPool.Pool.{
  Pool, Pc, idle, pop_load, pop_cas, pop_next, push_load, push_cas, push_store, popped, advance,
}
use oneplog.MemoryPool.Chain.{has, IsChain, IsChain-update}
use oneplog.MemoryPool.System.{is_running}
use oneplog.MemoryPool.Invariant.{
  in_hand, uses, is_popping, IsFine, Thread, Moved, head-has, store-IsFine, more-IsFine,
  less-IsFine,
}

module _ (popper : ℕ) (m : Pool) (free : List ℕ) (i : ℕ) (held : ℕ → Bool)
    (c : IsChain m.next m.head free) where
  -- A step that changes neither the pool nor what the thread has.
  pub quiet-Moved :
      (q q' : Pc)
      → Thread popper m free i q held
      → in_hand q' ≡ in_hand q
      → IsFine m.next free q'
      → (is_popping q' ≡ true → i ≡ popper)
      → Moved popper m free i q held m q' held
  quiet-Moved q q' t e fine pops = record {
    free' = free;
    chain = c;
    thread = record {
      apart = λ b u. t.apart b (ap (λ k. held b || (not (b == 0) && (k == b))) (sym e) ∙ u);
      nonzero = t.nonzero;
      once = λ b h. subst (λ k. k ≢ b) (sym e) (t.once b h);
      fine = fine;
      alone = pops;
    };
    gained = λ b u. inl (ap (λ k. held b || (not (b == 0) && (k == b))) (sym e) ∙ u);
    others = λ j r h ne d t'. t';
  }

  -- A block that goes from the thread's hand to its caller, or back.
  handed-Moved :
      (q q' : Pc) (held' : ℕ → Bool)
      → Thread popper m free i q held
      → ((b : ℕ) → uses q' held' b ≡ true → uses q held b ≡ true)
      → ((b : ℕ) → held' b ≡ true → b ≢ 0)
      → ((b : ℕ) → held' b ≡ true → in_hand q' ≢ b)
      → IsFine m.next free q'
      → (is_popping q' ≡ true → i ≡ popper)
      → Moved popper m free i q held m q' held'
  handed-Moved q q' held' t same nz once fine pops = record {
    free' = free;
    chain = c;
    thread = record {
      apart = λ b u. t.apart b (same b u);
      nonzero = nz;
      once = once;
      fine = fine;
      alone = pops;
    };
    gained = λ b u. inl (same b u);
    others = λ j r h ne d t'. t';
  }

  pub take-Moved :
      (b : ℕ)
      → Thread popper m free i (popped b) held
      → b ≢ 0
      → Moved popper m free i (popped b) held m idle (update held b true)
  take-Moved b t nz =
      handed-Moved (popped b) idle (update held b true) t (λ k u. ground arith)
        (λ k u. ground (arith, t.nonzero k)) (λ k u e. ground (arith, t.nonzero k)) tt
        (λ e. absurd (ground arith))

  pub give-Moved :
      (b : ℕ)
      → Thread popper m free i idle held
      → held b ≡ true
      → Moved popper m free i idle held m (push_load b) (update held b false)
  give-Moved b t h =
      handed-Moved idle (push_load b) (update held b false) t (λ k u. ground (arith, h))
        (λ k u. ground (arith, t.nonzero k)) (λ k u e. ground (arith, t.nonzero k)) (t.nonzero b h)
        (λ e. absurd (ground arith))

  -- The store to the block that is being pushed.
  store-Moved :
      (b old : ℕ)
      → Thread popper m free i (push_store b old) held
      → Moved popper m free i
          (push_store b old)
          held
          (record m { next = update m.next b old })
          (push_cas b old)
          held
  store-Moved b old t =
      let mine : has b free ≡ false = t.apart b (ground (arith, t.fine)) in
      record {
        free' = free;
        chain = IsChain-update m.next m.head free b old mine c;
        thread = record {
          apart = λ k u. t.apart k (ground arith);
          nonzero = t.nonzero;
          once = t.once;
          fine = (t.fine, update_self m.next b old);
          alone = λ e. absurd (ground arith);
        };
        gained = λ k u. inl (ground arith);
        others = λ j r h ne d t'. record {
          apart = t'.apart;
          nonzero = t'.nonzero;
          once = t'.once;
          fine =
              store-IsFine m.next free b old r h t.fine mine (d b (ground (arith, t.fine))) t'.fine;
          alone = t'.alone;
        };
      }

  -- The compare-exchange that puts a block on the free list.
  push-Moved :
      (b old : ℕ)
      → Thread popper m free i (push_cas b old) held
      → m.head ≡ old
      → Moved popper m free i (push_cas b old) held (record m { head = b }) idle held
  push-Moved b old t e =
      let (nz, link) = t.fine in
      let mine : has b free ≡ false = t.apart b (ground arith) in
      record {
        free' = b ∷ free;
        chain = (refl, nz, mine, subst (λ k. IsChain m.next k free) (e ∙ sym link) c);
        thread = record {
          apart = λ k u. ground (arith, t.apart k, t.once k);
          nonzero = t.nonzero;
          once = λ k h z. t.nonzero k h (sym z);
          fine = tt;
          alone = λ z. absurd (ground arith);
        };
        gained = λ k u. inl (ground arith);
        others = λ j r h ne d t'. record {
          apart = λ k u. ground (arith, t'.apart k, d b);
          nonzero = t'.nonzero;
          once = t'.once;
          fine = more-IsFine m.next free b r t'.fine;
          alone = t'.alone;
        };
      }

bystander :
    (popper i j : ℕ) (r : Pc)
    → j ≢ i
    → (true ≡ true → i ≡ popper)
    → (is_popping r ≡ true → j ≡ popper)
    → is_popping r ≡ false
bystander popper i j r ne mine its = elim (Bool-cases (is_popping r)) [
  | inl yes_popping ↦ absurd (ne (its yes_popping ∙ sym (mine refl)))
  | inr not_popping ↦ not_popping
]

-- The compare-exchange that takes the head of the free list.
pop-Moved :
    (popper : ℕ) (m : Pool) (free : List ℕ) (i : ℕ) (held : ℕ → Bool) (old new : ℕ)
    → IsChain m.next m.head free
    → Thread popper m free i (pop_cas old new) held
    → m.head ≡ old
    → Moved popper m free i (pop_cas old new) held (record m { head = new }) (popped old) held
pop-Moved popper m [] i held old new c t e = absurd (ground (arith, t.fine))
pop-Moved popper m (b ∷ bs) i held old new (e0, nz, out, rest) t e =
    let (inside, link) = t.fine in
    let same : b ≡ old = sym e0 ∙ e in
    record {
      free' = bs;
      chain = subst (λ k. IsChain m.next k bs) (ap m.next same ∙ link) rest;
      thread = record {
        apart = λ k u. ground (arith, t.apart k);
        nonzero = t.nonzero;
        once = λ k h z. ground (arith, t.apart k);
        fine = tt;
        alone = λ z. absurd (ground arith);
      };
      gained = λ k u. ground arith;
      others = λ j r h ne d t'. record {
        apart = λ k u. ground (arith, t'.apart k);
        nonzero = t'.nonzero;
        once = t'.once;
        fine = less-IsFine m.next bs b r (bystander popper i j r ne t.alone t'.alone) t'.fine;
        alone = t'.alone;
      };
    }

popping_empty : (q : Pc) → is_popping q ≡ true → 0 ≡ in_hand q
popping_empty idle e = absurd (ground arith)
popping_empty pop_load e = refl
popping_empty (pop_next old) e = refl
popping_empty (pop_cas old new) e = refl
popping_empty (popped b) e = absurd (ground arith)
popping_empty (push_load b) e = absurd (ground arith)
popping_empty (push_store b old) e = absurd (ground arith)
popping_empty (push_cas b old) e = absurd (ground arith)

module _ (popper : ℕ) (m : Pool) (free : List ℕ) (i : ℕ) (held : ℕ → Bool)
    (c : IsChain m.next m.head free) where
  pub reloaded-Moved :
      (b old : ℕ)
      → Thread popper m free i (push_cas b old) held
      → Moved popper m free i (push_cas b old) held m (push_store b m.head) held
  reloaded-Moved b old t =
      quiet-Moved popper m free i held c (push_cas b old) (push_store b m.head) t refl t.fine.0
        (λ e. absurd (ground arith))

  pub retried-Moved :
      (q : Pc)
      → is_popping q ≡ true
      → Thread popper m free i q held
      → Moved popper m free i q held m (pop_next m.head) held
  retried-Moved q pops t =
      quiet-Moved popper m free i held c q (pop_next m.head) t (popping_empty q pops)
        (head-has m.next m.head free c) (λ _. t.alone pops)

  -- Whatever access the thread makes next.
  pub access-Moved :
      (q : Pc)
      → is_running q ≡ true
      → Thread popper m free i q held
      → let (q', m') = advance q m in Moved popper m free i q held m' q' held
  unfolding advance
  access-Moved idle run t = absurd (ground arith)
  access-Moved (popped b) run t = absurd (ground arith)
  access-Moved pop_load run t = retried-Moved pop_load refl t
  access-Moved (pop_next old) run t = elim (Bool-cases (old == 0)) [
    | inl null ↦ rw null (
        quiet-Moved popper m free i held c (pop_next old) (popped 0) t refl tt
          (λ e. absurd (ground arith)))
    | inr some_block ↦ rw some_block (
        quiet-Moved popper m free i held c (pop_next old) (pop_cas old (m.next old)) t refl
          (ground (arith, t.fine)) (λ _. t.alone refl))
  ]
  access-Moved (pop_cas old new) run t = elim (Bool-cases (m.head == old)) [
    | inl won ↦ rw won (pop-Moved popper m free i held old new c t (ground arith))
    | inr lost ↦ rw lost (retried-Moved (pop_cas old new) refl t)
  ]
  access-Moved (push_load b) run t =
      quiet-Moved popper m free i held c (push_load b) (push_store b m.head) t refl t.fine
        (λ e. absurd (ground arith))
  access-Moved (push_store b old) run t = store-Moved popper m free i held c b old t
  access-Moved (push_cas b old) run t = elim (Bool-cases (m.head == old)) [
    | inl won ↦ rw won (push-Moved popper m free i held c b old t (ground arith))
    | inr lost ↦ rw lost (reloaded-Moved b old t)
  ]
