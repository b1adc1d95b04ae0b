-- ===== src/MemoryPool/Invariant.antt =====
-- What each thread may count on while one thread only calls `Allocate`
-- (include/oneplog/internal/memory_pool.hpp).
use oneplog.Prelude.{
  ℕ, ◌≡◌, ◌≢◌, ◌⊎◌, inl, inr, Bool, true, false, ◌||◌, ◌&&◌, not, ◌==◌, List, [], ◌∷◌, update,
  arith,
}
use oneplog.MemoryPool.Pool.{
  Pool, Pc, idle, pop_load, pop_cas, pop_next, push_load, push_cas, push_store, popped,
}
use oneplog.MemoryPool.Chain.{has, IsChain}

-- The block that a thread has in its local variables between two calls' ends, or 0.
abbrev pub in_hand : Pc → ℕ
in_hand (popped b) = b
in_hand (push_load b) = b
in_hand (push_store b old) = b
in_hand (push_cas b old) = b
in_hand _ = 0

abbrev pub uses : Pc → (ℕ → Bool) → ℕ → Bool
uses q held b = held b || (not (b == 0) && (in_hand q == b))

abbrev pub is_popping : Pc → Bool
is_popping pop_load = true
is_popping (pop_next old) = true
is_popping (pop_cas old new) = true
is_popping _ = false

-- What the local variables say of the shared state.
abbrev pub IsFine : (ℕ → ℕ) → List ℕ → Pc → Type 0
IsFine next free (pop_next old) = (old ≡ 0) ⊎ (has old free ≡ true)
IsFine next free (pop_cas old new) = (has old free ≡ true) × (next old ≡ new)
IsFine next free (push_load b) = b ≢ 0
IsFine next free (push_store b old) = b ≢ 0
IsFine next free (push_cas b old) = (b ≢ 0) × (next b ≡ old)
IsFine next free _ = Unit {0}

pub record Thread (popper : ℕ) (m : Pool) (free : List ℕ) (i : ℕ) (q : Pc) (held : ℕ → Bool)
    : Type 0 where
  pub apart : (b : ℕ) → uses q held b ≡ true → has b free ≡ false
  pub nonzero : (b : ℕ) → held b ≡ true → b ≢ 0
  pub once : (b : ℕ) → held b ≡ true → in_hand q ≢ b
  pub fine : IsFine m.next free q
  pub alone : is_popping q ≡ true → i ≡ popper

-- What a step of thread `i` leaves, to that thread and to any other.
pub record Moved (popper : ℕ) (m : Pool) (free : List ℕ) (i : ℕ) (q : Pc) (held : ℕ → Bool)
    (m' : Pool) (q' : Pc) (held' : ℕ → Bool) : Type 0 where
  pub free' : List ℕ
  pub chain : IsChain m'.next m'.head free'
  pub thread : Thread popper m' free' i q' held'
  pub gained : (b : ℕ) → uses q' held' b ≡ true → (uses q held b ≡ true) ⊎ (has b free ≡ true)
  pub others :
      (j : ℕ) (r : Pc) (h : ℕ → Bool)
      → j ≢ i
      → ((b : ℕ) → uses q held b ≡ true → uses r h b ≡ false)
      → Thread popper m free j r h
      → Thread popper m' free' j r h

pub head-has :
    (next : ℕ → ℕ) (p : ℕ) (free : List ℕ) → IsChain next p free → (p ≡ 0) ⊎ (has p free ≡ true)
head-has next p [] e = inl e
head-has next p (b ∷ bs) (e, nz, out, rest) = inr (ground arith)

pub store-IsFine :
    (next : ℕ → ℕ) (free : List ℕ) (b old : ℕ) (r : Pc) (h : ℕ → Bool)
    → b ≢ 0
    → has b free ≡ false
    → uses r h b ≡ false
    → IsFine next free r
    → IsFine (update next b old) free r
store-IsFine next free b old idle h nz mine out f = tt
store-IsFine next free b old pop_load h nz mine out f = tt
store-IsFine next free b old (pop_next o) h nz mine out f = f
store-IsFine next free b old (pop_cas o n) h nz mine out f = ground arith
store-IsFine next free b old (popped k) h nz mine out f = tt
store-IsFine next free b old (push_load k) h nz mine out f = f
store-IsFine next free b old (push_store k o) h nz mine out f = f
store-IsFine next free b old (push_cas k o) h nz mine out f = ground arith

-- The free list grows by `b` or loses its head.
pub more-IsFine :
    (next : ℕ → ℕ) (free : List ℕ) (b : ℕ) (r : Pc) → IsFine next free r → IsFine next (b ∷ free) r
more-IsFine next free b idle f = tt
more-IsFine next free b pop_load f = tt
more-IsFine next free b (pop_next o) f = ground arith
more-IsFine next free b (pop_cas o n) f = ground arith
more-IsFine next free b (popped k) f = tt
more-IsFine next free b (push_load k) f = f
more-IsFine next free b (push_store k o) f = f
more-IsFine next free b (push_cas k o) f = f

pub less-IsFine :
    (next : ℕ → ℕ) (free : List ℕ) (b : ℕ) (r : Pc)
    → is_popping r ≡ false
    → IsFine next (b ∷ free) r
    → IsFine next free r
less-IsFine next free b idle n f = tt
less-IsFine next free b pop_load n f = absurd (ground arith)
less-IsFine next free b (pop_next o) n f = absurd (ground arith)
less-IsFine next free b (pop_cas o k) n f = absurd (ground arith)
less-IsFine next free b (popped k) n f = tt
less-IsFine next free b (push_load k) n f = f
less-IsFine next free b (push_store k o) n f = f
less-IsFine next free b (push_cas k o) n f = f
