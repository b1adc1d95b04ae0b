-- ===== src/Mproc/Stop.antt =====
-- What is written when a process that logs through shared memory stops (include/oneplog/logger.hpp).
use oneplog.Prelude.{
  ℕ, ◌≡◌, refl, ap, Bool, true, false, Option, some, List, [], ◌++◌, length, length-append, arith,
}
use oneplog.RingBuffer.State.{Ring, Cache}
use oneplog.RingBuffer.Inv.{IsValid, contents}
use oneplog.Logger.Entry.{LogEntry}
use oneplog.Logger.Sinks.{World, SinkBinding, flush_all}
use oneplog.Logger.Drain.{write_each}
use oneplog.Logger.Worker.{drain}
use oneplog.Logger.Lifecycle.{Threads}
use oneplog.Pipeline.Message.{forward_all}
use oneplog.Mproc.Worker.{Rounds, Rings, join_pipeline, join_worker, drain_heap, stop_rings}
use oneplog.Mproc.Join.{
  length-forward_all, HasPipeline, Movable, Ready, moved, join_pipeline-Moved, drain-Nothing,
  join_worker-Joined,
}

module _ (mem : ℕ → ℕ) (pid : ℕ) (bindings : List SinkBinding) (wfc shadow : Bool) (t : Threads)
    (n : Rounds) where
  drain_heap-owner :
      (s : Rings) (heap : Ring LogEntry) (w : World)
      → t.is_owner ≡ true
      → t.ring ≡ true
      → drain bindings wfc shadow n.fuel s.heap s.world ≡ some (heap, w)
      → drain_heap mem pid bindings wfc shadow t n s ≡ some (record s { heap = heap; world = w })
  unfolding drain_heap
  drain_heap-owner s heap w owner ring drained = rw (drain_heap, owner, ring, drained) refl

  stop_rings-early :
      (c : Cache) (s0 s1 : Rings)
      → join_pipeline mem pid bindings wfc shadow t n c s0 ≡ some s1
      → t.running ≡ false
      → stop_rings mem pid bindings wfc shadow t n c s0 ≡ some s1
  unfolding stop_rings
  stop_rings-early c s0 s1 pipe running = rw (stop_rings, pipe, running) refl

  stop_rings-parts :
      (c : Cache) (s0 s1 s2 s3 : Rings)
      → join_pipeline mem pid bindings wfc shadow t n c s0 ≡ some s1
      → t.running ≡ true
      → join_worker mem pid bindings wfc shadow n s1 ≡ some s2
      → drain_heap mem pid bindings wfc shadow t n s2 ≡ some s3
      → stop_rings mem pid bindings wfc shadow t n c s0 ≡ some s3
  unfolding stop_rings
  stop_rings-parts c s0 s1 s2 s3 pipe running worker heap =
      rw (stop_rings, pipe, running, worker, heap) refl

-- A logger that has connected to it: it has no worker.
pub record IsConnected (t : Threads) : Type 0 where
  pub pipe : HasPipeline t
  pub running : t.running ≡ false

-- When such a logger stops, its entries are in the shared ring.
pub stop_rings-connected :
    (mem : ℕ → ℕ) (pid : ℕ) (bindings : List SinkBinding) (wfc shadow : Bool) (t : Threads)
    (n : Rounds) (c : Cache) (r q : Ring LogEntry) (w : World) (o : IsConnected t)
    (ready : Movable shadow n r q)
    → let m = moved mem pid bindings wfc shadow t n c r q w o.pipe ready in
      stop_rings mem pid bindings wfc shadow t n c (record { heap = r; shared = some q; world = w })
      ≡ some (record { heap = m.heap; shared = some m.shared; world = w })
unfolding stop_rings
stop_rings-connected mem pid bindings wfc shadow t n c r q w o ready =
    stop_rings-early mem pid bindings wfc shadow t n c _ _
      (join_pipeline-Moved mem pid bindings wfc shadow t n c r q w o.pipe ready) o.running

-- The logger that created the shared memory, at work.
pub record IsOwner (t : Threads) : Type 0 where
  pub pipe : HasPipeline t
  pub is_owner : t.is_owner ≡ true
  pub ring : t.ring ≡ true
  pub running : t.running ≡ true

-- Both rings are empty, and what they held has been written.
pub record Stopped (total : World) (out : Option Rings) : Type 0 where
  pub heap : Ring LogEntry
  pub shared : Ring LogEntry
  pub returned : out ≡ some (record { heap = heap; shared = some shared; world = total })
  pub heap_valid : IsValid heap
  pub shared_valid : IsValid shared
  pub heap_empty : contents heap ≡ []
  pub shared_empty : contents shared ≡ []

-- When the owner of the shared memory stops and no other process is at work, all entries of the
-- shared ring and then those of its own ring are written and flushed, each once and in order, its
-- own converted and with the process id, and both rings are empty; the rounds that are enough for
-- it are one more than there are entries, and the shared ring must have room for them.
pub stop_rings-Stopped :
    (mem : ℕ → ℕ) (pid : ℕ) (bindings : List SinkBinding) (wfc shadow : Bool) (t : Threads)
    (n : Rounds) (c : Cache) (r q : Ring LogEntry) (w : World)
    → IsOwner t
    → Ready shadow n r q
    → Stopped
        (flush_all bindings
          (write_each bindings (contents q ++ forward_all mem pid n.last (contents r)) w))
        (stop_rings mem pid bindings wfc shadow t n c
          (record { heap = r; shared = some q; world = w }))
stop_rings-Stopped mem pid bindings wfc shadow t n c r q w o ready =
    let m = moved mem pid bindings wfc shadow t n c r q w o.pipe ready.movable in
    let size = ap length m.queue in
    let sum = length-append (contents q) (forward_all mem pid n.last (contents r)) in
    let same = length-forward_all mem pid n.last (contents r) (ready.movable).turns_enough in
    let j =
      join_worker-Joined bindings wfc shadow mem pid n m.heap m.shared w m.shared_valid
        (omega (arith, size, sum, same, ready.fuel_enough)) ready.quiet in
    let total = flush_all bindings (write_each bindings (contents m.shared) w) in
    let d =
      drain-Nothing bindings wfc shadow n.fuel m.heap total m.heap_valid m.heap_empty
        (omega (arith, ready.fuel_enough)) in
    rw (← m.queue) (record {
      heap = d.after;
      shared = j.shared;
      returned =
          stop_rings-parts mem pid bindings wfc shadow t n c _ _ _ _
            (join_pipeline-Moved mem pid bindings wfc shadow t n c r q w o.pipe ready.movable)
            o.running j.returned
            (drain_heap-owner mem pid bindings wfc shadow t n _ d.after total o.is_owner o.ring
              d.returned);
      heap_valid = d.valid;
      shared_valid = j.valid;
      heap_empty = d.empty;
      shared_empty = j.empty;
    })
