-- ===== src/Mproc/Join.antt =====
-- What is in the rings once the pipeline is joined, and once the worker is
-- (include/oneplog/logger.hpp).
use oneplog.Prelude.{
  ℕ, ◌+◌, ◌≤◌, ◌<◌, ◌≡◌, refl, ◌∙◌, ap, subst, subst, Bool, true, Option, some, List, [], ◌∷◌,
  length, arith,
}
use oneplog.RingBuffer.State.{Ring, Cache, size_mod}
use oneplog.RingBuffer.Inv.{IsValid, contents, length-contents}
use oneplog.RingBuffer.PushSmall.{IsSmall}
use oneplog.RingBuffer.Wait.{notify_consumer}
use oneplog.RingBuffer.WaitKeeps.{notify_consumer-IsValid}
use oneplog.Logger.Entry.{LogEntry}
use oneplog.Logger.Sinks.{World, SinkBinding, flush_all}
use oneplog.Logger.Drain.{write_each, drain_lem}
use oneplog.Logger.Worker.{drain}
use oneplog.Logger.Lifecycle.{Threads}
use oneplog.Pipeline.Forward
use oneplog.Pipeline.Thread.{thread_func}
use oneplog.Pipeline.Message.{forward_all}
use oneplog.Pipeline.Drain.{Moved, drain-Moved}
use oneplog.Mproc.Pending.{TurnsQuiet, worker_loop-Emptied}
use oneplog.Mproc.Worker.{
  Rounds, Rings, drain_shared, mproc_worker_loop, join_pipeline, join_worker,
}

pub length-forward_all :
    (mem : ℕ → ℕ) (pid : ℕ) (turns : List Forward.Turn) (es : List LogEntry)
    → length es < length turns
    → length (forward_all mem pid turns es) ≡ length es
unfolding forward_all
length-forward_all mem pid [] es h = absurd (omega (arith, h))
length-forward_all mem pid (t ∷ turns) [] h = refl
length-forward_all mem pid (t ∷ turns) (e ∷ es) h =
    omega (arith, length-forward_all mem pid turns es (omega (arith, h)))

-- The pipeline is at work; what a logger with shared memory has.
pub record HasPipeline (t : Threads) : Type 0 where
  pub pipeline : t.pipeline ≡ true
  pub pipeline_running : t.pipeline_running ≡ true

-- The pipeline can move what is in one ring to the other, in the rounds given.
pub record Movable (shadow : Bool) (n : Rounds) (r q : Ring LogEntry) : Type 0 where
  pub heap_valid : IsValid r
  pub shared_valid : IsValid q
  pub small : IsSmall shadow q
  pub turns_enough : length (contents r) < length n.last
  pub room : length (contents q) + length (contents r) ≤ q.capacity
  pub fits : q.head + length (contents r) < size_mod

-- And the worker can write it all, with no one else at work.
pub record Ready (shadow : Bool) (n : Rounds) (r q : Ring LogEntry) : Type 0 where
  pub movable : Movable shadow n r q
  pub fuel_enough : length (contents q) + length (contents r) < n.fuel
  pub quiet : TurnsQuiet n.turns

module _ (mem : ℕ → ℕ) (pid : ℕ) (bindings : List SinkBinding) (wfc shadow : Bool) (t : Threads)
    (n : Rounds) (c : Cache) (r q : Ring LogEntry) (w : World) (has : HasPipeline t)
    (ready : Movable shadow n r q) where
  pub moved :
      Moved mem pid wfc shadow c q
        (forward_all mem pid n.last (contents r))
        (thread_func mem pid wfc shadow n.event_fd [] n.last c (notify_consumer r) (some q))
  unfolding thread_func
  moved =
      let h = notify_consumer-IsValid ready.heap_valid in
      subst
        (λ es.
          Moved mem pid wfc shadow c q (forward_all mem pid n.last es)
            (Forward.drain mem pid wfc shadow n.last c (notify_consumer r) (some q)))
        h.1
        (drain-Moved mem pid wfc shadow n.last c (notify_consumer r) q h.0 ready.shared_valid
          ready.small (rw h.1 ready.turns_enough)
          (rw h.1 (omega (arith, ready.room, length-contents q))) (rw h.1 ready.fits))

  pub join_pipeline-Moved :
      join_pipeline mem pid bindings wfc shadow t n c
        (record { heap = r; shared = some q; world = w })
      ≡ some (record { heap = moved.heap; shared = some moved.shared; world = w })
  unfolding join_pipeline
  join_pipeline-Moved = rw (join_pipeline, has.pipeline, has.pipeline_running, moved.returned) refl

module _ (bindings : List SinkBinding) (wfc shadow : Bool) where
  -- A drain that finds nothing.
  pub record Nothing (q : Ring LogEntry) (w : World) (out : Option (Ring LogEntry × World))
      : Type 0 where
    pub after : Ring LogEntry
    pub returned : out ≡ some (after, w)
    pub valid : IsValid after
    pub empty : contents after ≡ []

  pub drain-Nothing :
      (fuel : ℕ) (q : Ring LogEntry) (w : World)
      → IsValid q
      → contents q ≡ []
      → 0 < fuel
      → Nothing q w (drain bindings wfc shadow fuel q w)
  unfolding write_each
  drain-Nothing fuel q w v e h =
      let d = drain_lem bindings shadow wfc fuel q w v (rw e h) in
      record {
        after = d.after;
        returned = d.returned ∙ ap (λ es. some (d.after, write_each bindings es w)) e;
        valid = d.valid;
        empty = d.empty;
      }

  -- The worker has written all that the shared ring held.
  pub record Joined (heap q : Ring LogEntry) (w : World) (out : Option Rings) : Type 0 where
    pub shared : Ring LogEntry
    pub returned :
        out
        ≡ some (record {
          heap = heap;
          shared = some shared;
          world = flush_all bindings (write_each bindings (contents q) w);
        })
    pub valid : IsValid shared
    pub empty : contents shared ≡ []

  pub join_worker-Joined :
      (mem : ℕ → ℕ) (pid : ℕ) (n : Rounds) (heap q : Ring LogEntry) (w : World)
      → IsValid q
      → length (contents q) < n.fuel
      → TurnsQuiet n.turns
      → Joined heap q w (
          join_worker mem pid bindings wfc shadow n
            (record { heap = heap; shared = some q; world = w }))
  unfolding join_worker mproc_worker_loop drain_shared
  join_worker-Joined mem pid n heap q w v enough quiet =
      let h = notify_consumer-IsValid v in
      let m =
        worker_loop-Emptied bindings wfc shadow n.event_fd n.fuel n.turns (notify_consumer q) w h.0
          (rw h.1 enough) quiet in
      let total = flush_all bindings (write_each bindings (contents q) w) in
      let same : flush_all bindings (write_each bindings (contents (notify_consumer q)) w) ≡ total =
        ap (λ es. flush_all bindings (write_each bindings es w)) h.1 in
      let d = drain-Nothing n.fuel m.after total m.valid m.empty (omega (arith, enough)) in
      record {
        shared = d.after;
        returned =
            rw
              (
                join_worker,
                mproc_worker_loop,
                m.returned ∙ ap (λ x. some (m.after, x)) same,
                drain_shared,
                d.returned,
              )
              refl;
        valid = d.valid;
        empty = d.empty;
      }
