-- ===== src/Mproc/Worker.antt =====
-- `MProcWorkerLoop`, `DrainSharedRingBuffer` and what `StopMProcWorker` has done to the rings and the
-- sinks (include/oneplog/logger.hpp).
use oneplog.Prelude.{[], ℕ, Bool, ◌&&◌, if◌then◌else◌, Option, none, some, List}
use oneplog.RingBuffer.State.{Ring, Cache}
use oneplog.RingBuffer.Wait.{EventFd, notify_consumer}
use oneplog.Logger.Entry.{LogEntry}
use oneplog.Logger.Sinks.{World, SinkBinding}
use oneplog.Logger.Worker.{drain}
use oneplog.Logger.Loop.{worker_loop}
use oneplog.Logger.Loop
use oneplog.Logger.Lifecycle.{Threads}
use oneplog.Pipeline.Forward
use oneplog.Pipeline.Thread.{shared_after, thread_func}

module _ (bindings : List SinkBinding) (wfc shadow : Bool) where
  -- The ring is none if there is no shared memory.
  unfoldable pub drain_shared :
      ℕ → Option (Ring LogEntry) → World → Option (Option (Ring LogEntry) × World)
  drain_shared fuel none w = some (none, w)
  drain_shared fuel (some q) w = elim (drain bindings wfc shadow fuel q w) [
    | none ↦ none
    | some (q', w') ↦ some (some q', w')
  ]

  -- The loop is that of `WorkerLoop`, on the other ring.
  unfoldable pub mproc_worker_loop :
      EventFd
      → ℕ
      → List Loop.Turn
      → Option (Ring LogEntry)
      → World
      → Option (Option (Ring LogEntry) × World)
  mproc_worker_loop e fuel turns none w = some (none, w)
  mproc_worker_loop e fuel turns (some q) w =
      elim (worker_loop bindings wfc shadow e fuel turns q w) [
        | none ↦ none
        | some (q', w') ↦ some (some q', w')
      ]

-- How far the threads come until they are joined: the rounds of the pipeline's drain, the turns of
-- the worker, and the rounds of each drain of the logger.
pub record Rounds : Type 0 where
  pub event_fd : EventFd
  pub last : List Forward.Turn
  pub turns : List Loop.Turn
  pub fuel : ℕ

-- The ring of the process, the one in shared memory, and what has been written.
pub record Rings : Type 0 where
  pub heap : Ring LogEntry
  pub shared : Option (Ring LogEntry)
  pub world : World

module _ (mem : ℕ → ℕ) (pid : ℕ) (bindings : List SinkBinding) (wfc shadow : Bool) where
  -- `m_pipelineThread->Stop()`: the thread is woken and comes to the end of `ThreadFunc`.
  unfoldable pub join_pipeline : Threads → Rounds → Cache → Rings → Option Rings
  join_pipeline t n c s =
      if t.pipeline && t.pipeline_running
      then elim (thread_func mem pid wfc shadow n.event_fd [] n.last c (notify_consumer s.heap)
          s.shared) [
            | none ↦ none
            | some (heap', c', shared') ↦ some (record s { heap = heap'; shared = shared' })
          ]
      else some s

  -- The worker woken and joined, and what it left drained.
  unfoldable pub join_worker : Rounds → Rings → Option Rings
  join_worker n s =
      elim (mproc_worker_loop bindings wfc shadow n.event_fd n.fuel n.turns
        (shared_after notify_consumer s.shared) s.world) [
          | none ↦ none
          | some (shared', w') ↦ elim (drain_shared bindings wfc shadow n.fuel shared' w') [
            | none ↦ none
            | some (shared'', w'') ↦ some (record s { shared = shared''; world = w'' })
          ]
        ]

  unfoldable pub drain_heap : Threads → Rounds → Rings → Option Rings
  drain_heap t n s =
      if t.is_owner && t.ring
      then elim (drain bindings wfc shadow n.fuel s.heap s.world) [
        | none ↦ none
        | some (heap', w') ↦ some (record s { heap = heap'; world = w' })
      ]
      else some s

  unfoldable pub stop_rings : Threads → Rounds → Cache → Rings → Option Rings
  stop_rings t n c s = elim (join_pipeline t n c s) [
    | none ↦ none
    | some s1 ↦
        if t.running
        then elim (join_worker n s1) [ none ↦ none | some s2 ↦ drain_heap t n s2 ]
        else some s1
  ]
