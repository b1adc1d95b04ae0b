-- ===== src/MemoryPool/Tests.antt =====
-- The properties of the pool with blocks 1 and 2 free and 3 in use (include/oneplog/internal/memory_pool.hpp).
use oneplog.Prelude.{ℕ, ◌≡◌, refl, true, false, ◌==◌, if◌then◌else◌, List, [], ◌∷◌, update, arith}
use oneplog.MemoryPool.Pool.{
  Pool, idle, pop_load, push_load, advance, allocate, deallocate, expand, available_count,
}
use oneplog.MemoryPool.Chain.{has, IsChain}
use oneplog.MemoryPool.Stack.{IsPool, pool_refines}
use oneplog.MemoryPool.System.{
  System, Reach, start, later, call_allocate, call_deallocate, hand_over, access, return_block,
  moved, handed, passed_on, at_rest,
}
use oneplog.MemoryPool.Ownership.{Reach-single}
use oneplog.MemoryPool.Aba.{shared_block}

abbrev two_free : Pool
two_free = record {
  head = 1;
  next = λ i. if i == 1 then 2 else 0;
  total_count = 3;
  blocks = (1 ∷ 2 ∷ 3 ∷ []) ∷ [];
}

two_free-IsPool : IsPool two_free (1 ∷ 2 ∷ [])
two_free-IsPool = record { chain = ground arith; enough = omega arith }

pool_refines_example :
    ((allocate two_free).0 ≡ 1)
    × IsPool (allocate two_free).1 (2 ∷ [])
    × IsPool (deallocate 3 two_free) (3 ∷ 1 ∷ 2 ∷ [])
    × IsPool (expand (5 ∷ 6 ∷ []) two_free) (6 ∷ 5 ∷ 1 ∷ 2 ∷ [])
    × (available_count two_free ≡ 2)
pool_refines_example =
    pool_refines two_free (1 ∷ 2 ∷ []) 3 (5 ∷ 6 ∷ []) two_free-IsPool (omega arith) refl
      (omega arith) (omega arith, refl, (omega arith, refl, tt))

-- Thread 0 allocates block 1 and passes it to thread 1.
abbrev called : System
called = record (at_rest two_free) { pc = update (λ _. idle) 0 pop_load }

abbrev owning : System
owning = handed 0 1 true idle (moved 0 (moved 0 (moved 0 called)))

abbrev passed : System
passed = passed_on 0 1 1 owning

-- Thread 0 calls `Allocate` again, and takes block 2 while thread 1 gives block 1 back.
abbrev called_again : System
called_again = record passed { pc = update passed.pc 0 pop_load }

abbrev giving : System
giving = handed 1 1 false (push_load 1) (moved 0 called_again)

abbrev given : System
given = moved 1 (moved 1 (moved 1 (moved 0 (moved 0 giving))))

abbrev finished : System
finished = handed 0 2 true idle given

finished-Reach : Reach (λ i. i == 0) two_free finished
unfolding moved advance passed_on handed
finished-Reach =
    let first =
      later
        (later (later (later start (call_allocate 0 refl refl)) (access 0 refl)) (access 0 refl))
        (access 0 refl) in
    let second =
      later
        (later
          (later (later (later first (return_block 0 1 refl (omega arith))) (hand_over 0 1 1 refl))
            (call_allocate 0 refl refl))
          (access 0 refl))
        (call_deallocate 1 1 refl refl) in
    let third =
      later
        (later (later (later (later second (access 0 refl)) (access 0 refl)) (access 1 refl))
          (access 1 refl))
        (access 1 refl) in
    later third (return_block 0 2 refl (omega arith))

Reach-single_example :
    ((i j b : ℕ) → finished.held i b ≡ true → finished.held j b ≡ true → i ≡ j)
    × ((now : List ℕ) × IsChain finished.pool.next finished.pool.head now
        × ((i b : ℕ) → finished.held i b ≡ true → has b now ≡ false))
Reach-single_example =
    Reach-single 0 (λ i. i == 0) two_free (1 ∷ 2 ∷ []) (λ i e. ground (arith, e))
      two_free-IsPool.chain finished-Reach

shared_block_example :
    (s : System) × Reach (λ _. true) two_free s × (s.held 0 2 ≡ true) × (s.held 1 2 ≡ true)
shared_block_example = shared_block two_free 1 2 [] two_free-IsPool.chain
