-- ===== src/MemoryPool/Aba.antt =====
-- Two threads that both allocate (include/oneplog/internal/memory_pool.hpp).
use oneplog.Prelude.{ℕ, ◌≡◌, ◌≢◌, refl, ◌∙◌, ap, ap₂, Bool, true, false, List, ◌∷◌, update, arith}
use oneplog.MemoryPool.Pool.{
  Pool, Pc, idle, pop_load, pop_next, pop_cas, push_load, push_store, push_cas, popped, advance,
}
use oneplog.MemoryPool.Chain.{IsChain}
use oneplog.MemoryPool.System.{
  System, is_running, call_allocate, call_deallocate, access, return_block, moved, handed, at_rest,
  Reach, start, later,
}

abbrev anyone : ℕ → Bool
anyone i = true

-- A state that is reached, where threads 0 and 1 stand at `p0` and `p1` and have `h0` and `h1`.
record Here (m pool : Pool) (p0 p1 : Pc) (h0 h1 : ℕ → Bool) : Type 0 where
  at : System
  reach : Reach anyone m at
  pool_eq : at.pool ≡ pool
  pc0 : at.pc 0 ≡ p0
  pc1 : at.pc 1 ≡ p1
  held0 : at.held 0 ≡ h0
  held1 : at.held 1 ≡ h1

module _ {m pool : Pool} {p0 p1 : Pc} {h0 h1 : ℕ → Bool} (s : Here m pool p0 p1 h0 h1) where
  access0 :
      (p' : Pc) (pool' : Pool)
      → is_running p0 ≡ true
      → advance p0 pool ≡ (p', pool')
      → Here m pool' p' p1 h0 h1
  unfolding moved
  access0 p' pool' run e =
      let out : advance (s.at.pc 0) s.at.pool ≡ (p', pool') = ap₂ advance s.pc0 s.pool_eq ∙ e in
      record {
        at = moved 0 s.at;
        reach = later s.reach (access 0 (ap is_running s.pc0 ∙ run));
        pool_eq = ap (λ q. q.1) out;
        pc0 = ap (λ q. q.0) out;
        pc1 = s.pc1;
        held0 = s.held0;
        held1 = s.held1;
      }

  access1 :
      (p' : Pc) (pool' : Pool)
      → is_running p1 ≡ true
      → advance p1 pool ≡ (p', pool')
      → Here m pool' p0 p' h0 h1
  unfolding moved
  access1 p' pool' run e =
      let out : advance (s.at.pc 1) s.at.pool ≡ (p', pool') = ap₂ advance s.pc1 s.pool_eq ∙ e in
      record {
        at = moved 1 s.at;
        reach = later s.reach (access 1 (ap is_running s.pc1 ∙ run));
        pool_eq = ap (λ q. q.1) out;
        pc0 = s.pc0;
        pc1 = ap (λ q. q.0) out;
        held0 = s.held0;
        held1 = s.held1;
      }

  call0 : p0 ≡ idle → Here m pool pop_load p1 h0 h1
  call0 e = record {
    at = record s.at { pc = update s.at.pc 0 pop_load };
    reach = later s.reach (call_allocate 0 (s.pc0 ∙ e) refl);
    pool_eq = s.pool_eq;
    pc0 = refl;
    pc1 = s.pc1;
    held0 = s.held0;
    held1 = s.held1;
  }

  call1 : p1 ≡ idle → Here m pool p0 pop_load h0 h1
  call1 e = record {
    at = record s.at { pc = update s.at.pc 1 pop_load };
    reach = later s.reach (call_allocate 1 (s.pc1 ∙ e) refl);
    pool_eq = s.pool_eq;
    pc0 = s.pc0;
    pc1 = refl;
    held0 = s.held0;
    held1 = s.held1;
  }

  return0 : (b : ℕ) → p0 ≡ popped b → b ≢ 0 → Here m pool idle p1 (update h0 b true) h1
  unfolding handed
  return0 b e nz = record {
    at = handed 0 b true idle s.at;
    reach = later s.reach (return_block 0 b (s.pc0 ∙ e) nz);
    pool_eq = s.pool_eq;
    pc0 = refl;
    pc1 = s.pc1;
    held0 = ap (λ h. update h b true) s.held0;
    held1 = s.held1;
  }

  return1 : (b : ℕ) → p1 ≡ popped b → b ≢ 0 → Here m pool p0 idle h0 (update h1 b true)
  unfolding handed
  return1 b e nz = record {
    at = handed 1 b true idle s.at;
    reach = later s.reach (return_block 1 b (s.pc1 ∙ e) nz);
    pool_eq = s.pool_eq;
    pc0 = s.pc0;
    pc1 = refl;
    held0 = s.held0;
    held1 = ap (λ h. update h b true) s.held1;
  }

  give1 : (b : ℕ) → p1 ≡ idle → h1 b ≡ true → Here m pool p0 (push_load b) h0 (update h1 b false)
  unfolding handed
  give1 b e h = record {
    at = handed 1 b false (push_load b) s.at;
    reach = later s.reach (call_deallocate 1 b (s.pc1 ∙ e) (ap (λ k. k b) s.held1 ∙ h));
    pool_eq = s.pool_eq;
    pc0 = s.pc0;
    pc1 = refl;
    held0 = s.held0;
    held1 = ap (λ k. update k b false) s.held1;
  }

module _ {m pool : Pool} {h0 h1 : ℕ → Bool} where
  -- An `Allocate` of thread 1 that no other thread disturbs.
  take1 :
      (p0 : Pc)
      → Here m pool p0 idle h0 h1
      → (b : ℕ) → pool.head ≡ b
      → b ≢ 0
      → Here m (record pool { head = pool.next b }) p0 idle h0 (update h1 b true)
  unfolding advance
  take1 p0 s b e nz =
      let s1 = access1 (call1 s refl) (pop_next b) pool refl (ap (λ k. (pop_next k, pool)) e) in
      let s2 = access1 s1 (pop_cas b (pool.next b)) pool refl (ground arith) in
      let s3 = access1 s2 (popped b) (record pool { head = pool.next b }) refl (ground arith) in
      return1 s3 b refl nz

  give1_alone :
      (p0 : Pc)
      → Here m pool p0 idle h0 h1
      → (b : ℕ) → h1 b ≡ true
      → Here m
          (record pool { head = b; next = update pool.next b pool.head })
          p0
          idle
          h0
          (update h1 b false)
  unfolding advance
  give1_alone p0 s b h =
      let s1 = access1 (give1 s b refl h) (push_store b pool.head) pool refl refl in
      let stored = record pool { next = update pool.next b pool.head } in
      let s2 = access1 s1 (push_cas b pool.head) stored refl refl in
      access1 s2 idle (record stored { head = b }) refl (ground arith)

module _ (m : Pool) (a b : ℕ) (rest : List ℕ) (c : IsChain m.next m.head (a ∷ b ∷ rest)) where
  opened : Here m m (pop_cas a b) idle (λ _. false) (λ _. false)
  unfolding advance
  opened =
      let s0 : Here m m idle idle (λ _. false) (λ _. false) = record {
        at = at_rest m;
        reach = start;
        pool_eq = refl;
        pc0 = refl;
        pc1 = refl;
        held0 = refl;
        held1 = refl;
      } in
      let s1 = access0 (call0 s0 refl) (pop_next a) m refl (ap (λ k. (pop_next k, m)) c.0) in
      access0 s1 (pop_cas a b) m refl (ground (arith, c))

  -- Thread 1 takes both blocks and gives the first back.
  swapped : Pool
  swapped = record m { head = a; next = update m.next a (m.next b) }

  reused :
      Here m swapped
        (pop_cas a b)
        idle
        (λ _. false)
        (update (update (update (λ _. false) a true) b true) a false)
  unfolding swapped
  reused =
      let s1 = take1 (pop_cas a b) opened a c.0 (ground (arith, c)) in
      let s2 = take1 (pop_cas a b) s1 b (ground (arith, c)) (ground (arith, c)) in
      give1_alone (pop_cas a b) s2 a (ground (arith, c))

  -- From any pool with two free blocks, two threads that use it as it is meant to be used come to
  -- have the same block at the same time: the compare-exchange of `PopFromFreeList` succeeds on a
  -- head that was taken and given back in between, with the successor it had before.
  pub shared_block :
      (s : System) × Reach (λ _. true) m s × (s.held 0 b ≡ true) × (s.held 1 b ≡ true)
  unfolding swapped advance
  shared_block =
      let s1 = access0 reused (popped a) (record swapped { head = b }) refl (ground arith) in
      let s2 = call0 (return0 s1 a refl (ground (arith, c))) refl in
      let taken = record swapped { head = b } in
      let s3 = access0 s2 (pop_next b) taken refl refl in
      let s4 = access0 s3 (pop_cas b (taken.next b)) taken refl (ground (arith, c)) in
      let s5 = access0 s4 (popped b) (record taken { head = taken.next b }) refl (ground arith) in
      let s6 = return0 s5 b refl (ground (arith, c)) in
      (
        s6.at,
        s6.reach,
        ap (λ h. h b) s6.held0 ∙ ground arith,
        ap (λ h. h b) s6.held1 ∙ ground (arith, c),
      )
