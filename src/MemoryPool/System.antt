-- ===== src/MemoryPool/System.antt =====
-- Threads that use one pool at the same time (include/oneplog/internal/memory_pool.hpp): each step
-- is one atomic access of one thread, or the beginning or the end of a call.
use oneplog.Prelude.{ℕ, ◌≡◌, ◌≢◌, Bool, true, false, update}
use oneplog.MemoryPool.Pool.{
  Pool, Pc, idle, pop_load, pop_cas, pop_next, push_load, push_cas, push_store, popped, advance,
}

-- `held i b`: thread `i` has the block `b` from `Allocate` and has not given it back.
pub record System : Type 0 where
  pub pool : Pool
  pub pc : ℕ → Pc
  pub held : ℕ → ℕ → Bool

abbrev pub is_running : Pc → Bool
is_running idle = false
is_running (popped b) = false
is_running _ = true

-- The state once thread `i` has made its next access.
unfoldable pub moved : ℕ → System → System
moved i s =
    let (p, m) = advance (s.pc i) s.pool in record { pool = m; pc = update s.pc i p; held = s.held }

-- The state once thread `i` has a block in hand or gives one back, and stands at `p`.
unfoldable pub handed : ℕ → ℕ → Bool → Pc → System → System
handed i b has_it p s = record {
  pool = s.pool;
  pc = update s.pc i p;
  held = update s.held i (update (s.held i) b has_it);
}

-- The state once thread `i` has passed a block that it has to thread `j`, as a pointer.
unfoldable pub passed_on : ℕ → ℕ → ℕ → System → System
passed_on i j b s = record s {
  held = update (update s.held i (update (s.held i) b false)) j (update (s.held j) b true);
}

-- `may i`: thread `i` may call `Allocate`. Any thread may pass a block that it has to any other. A weak compare-exchange may also fail for no reason.
pub data Step (may : ℕ → Bool) (s : System) : System → Type 0 where
  call_allocate :
      (i : ℕ) → s.pc i ≡ idle → may i ≡ true → Step may s (record s { pc = update s.pc i pop_load })
  call_deallocate :
      (i b : ℕ) → s.pc i ≡ idle → s.held i b ≡ true → Step may s (handed i b false (push_load b) s)
  hand_over : (i j b : ℕ) → s.held i b ≡ true → Step may s (passed_on i j b s)
  access : (i : ℕ) → is_running (s.pc i) ≡ true → Step may s (moved i s)
  spurious_pop :
      (i old new : ℕ)
      → s.pc i ≡ pop_cas old new
      → Step may s (record s { pc = update s.pc i (pop_next s.pool.head) })
  spurious_push :
      (i b old : ℕ)
      → s.pc i ≡ push_cas b old
      → Step may s (record s { pc = update s.pc i (push_store b s.pool.head) })
  return_null : (i : ℕ) → s.pc i ≡ popped 0 → Step may s (record s { pc = update s.pc i idle })
  return_block : (i b : ℕ) → s.pc i ≡ popped b → b ≢ 0 → Step may s (handed i b true idle s)

-- No call runs, and no block is out.
abbrev pub at_rest : Pool → System
at_rest m = record { pool = m; pc = λ _. idle; held = λ _ _. false }

pub data Reach (may : ℕ → Bool) (m : Pool) : System → Type 0 where
  start : Reach may m (at_rest m)
  later : {s t : System} → Reach may m s → Step may s t → Reach may m t
