-- ===== src/MemoryPool/Pool.antt =====
-- `MemoryPool<T>` (include/oneplog/internal/memory_pool.hpp). A block is its address, 0 the null
-- pointer; `T* <-> Block*` is the identity, since both name one block. Each atomic access of the
-- loops `PushToFreeList` and `PopFromFreeList` is one step of the thread that runs it.
use oneplog.Prelude.{
  ℕ, zero, suc, ◌+◌, ◌%◌, ◌^◌, ◌==◌, if◌then◌else◌, List, [], ◌∷◌, ◌++◌, length, update,
}

pub record Pool : Type 0 where
  pub head : ℕ  -- m_freeList
  pub next : ℕ → ℕ
  pub total_count : ℕ
  pub blocks : List (List ℕ)  -- m_blocks: the arrays, each by its blocks

-- Where a thread stands: what it does next, with its local variables.
pub data Pc : Type 0 where
  idle : Pc
  pop_load : Pc  -- oldHead = m_freeList.load
  pop_next : ℕ → Pc  -- the test of oldHead, newHead = oldHead->next.load
  pop_cas : ℕ → ℕ → Pc  -- compare_exchange(oldHead, newHead)
  popped : ℕ → Pc  -- the block to return, or null
  push_load : ℕ → Pc  -- oldHead = m_freeList.load
  push_store : ℕ → ℕ → Pc  -- block->next.store(oldHead)
  push_cas : ℕ → ℕ → Pc  -- compare_exchange(oldHead, block)

-- The next atomic access of a thread.
unfoldable pub advance : Pc → Pool → Pc × Pool
advance idle m = (idle, m)
advance pop_load m = (pop_next m.head, m)
advance (pop_next old) m = if old == 0 then (popped 0, m) else (pop_cas old (m.next old), m)
advance (pop_cas old new) m =
    if m.head == old then (popped old, record m { head = new }) else (pop_next m.head, m)
advance (popped b) m = (popped b, m)
advance (push_load b) m = (push_store b m.head, m)
advance (push_store b old) m = (push_cas b old, record m { next = update m.next b old })
advance (push_cas b old) m =
    if m.head == old then (idle, record m { head = b }) else (push_store b m.head, m)

-- A call that no other thread disturbs: three accesses.
abbrev pub alone : Pc → Pool → Pc × Pool
alone p m = let (p1, m1) = advance p m in let (p2, m2) = advance p1 m1 in advance p2 m2

unfoldable pub push_to_free_list : ℕ → Pool → Pool
unfolding advance
push_to_free_list b m = (alone (push_load b) m).1

abbrev pub block_of : Pc → ℕ
block_of (popped b) = b
block_of _ = 0

unfoldable pub pop_from_free_list : Pool → ℕ × Pool
unfolding advance
pop_from_free_list m = let (p, m') = alone pop_load m in (block_of p, m')

unfoldable pub allocate : Pool → ℕ × Pool
unfolding pop_from_free_list
allocate m = pop_from_free_list m

unfoldable pub deallocate : ℕ → Pool → Pool
unfolding push_to_free_list
deallocate b m = if b == 0 then m else push_to_free_list b m

-- The walk of `AvailableCount`, with fuel.
unfoldable pub count_from : ℕ → (ℕ → ℕ) → ℕ → ℕ
count_from zero next p = 0
count_from (suc fuel) next p =
    let rest = count_from fuel next (next p) in if p == 0 then 0 else suc rest

unfoldable pub push_all : List ℕ → Pool → Pool
push_all [] m = m
push_all (b ∷ bs) m = push_all bs (push_to_free_list b m)

-- `AllocateBlocks`: `fresh` are the blocks of the array that `new` returned.
unfoldable pub allocate_blocks : List ℕ → Pool → Pool
allocate_blocks fresh m =
    let pushed = push_all fresh m in
    record pushed {
      total_count = (pushed.total_count + length fresh) % 2 ^ 64;
      blocks = pushed.blocks ++ (fresh ∷ []);
    }

unfoldable pub expand : List ℕ → Pool → Pool
expand [] m = m
expand (b ∷ bs) m = allocate_blocks (b ∷ bs) m

-- `AvailableCount`: as much fuel as there are blocks.
abbrev pub flat_length : List (List ℕ) → ℕ
flat_length [] = 0
flat_length (a ∷ rest) = length a + flat_length rest

unfoldable pub available_count : Pool → ℕ
available_count m = count_from (flat_length m.blocks) m.next m.head

unfoldable pub new_pool : List ℕ → Pool
unfolding expand
new_pool fresh = expand fresh (record { head = 0; next = λ _. 0; total_count = 0; blocks = [] })
