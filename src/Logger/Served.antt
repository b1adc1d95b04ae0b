-- ===== src/Logger/Served.antt =====
-- Whether what a logger takes is on its way to the sinks: its threads after construction, moves and
-- destruction (include/oneplog/logger.hpp).
use oneplog.Prelude.{◌≡◌, refl, Bool, true, false, not, ◌&&◌, ◌||◌, if◌then◌else◌, arith}
use oneplog.Common.Level.{Mode, sync, async, mproc}
use oneplog.Logger.Lifecycle.{
  Threads, WorkerTask, worker_task, mproc_worker_task, start_worker, stop_worker, start_pipeline,
  stop_pipeline, start_mproc_worker, stop_mproc_worker, destroy, restart_mproc, restart_async,
  taken, move_into, move_construct, move_assign,
}

abbrev pub is_mproc_task : WorkerTask → Bool
is_mproc_task worker_task = false
is_mproc_task mproc_worker_task = true

abbrev pub same : Bool → Bool → Bool
same true b = b
same false b = not b

-- A logger with shared memory has a pipeline at work, and the owner, and no one else, a worker that
-- writes from the shared ring; without shared memory a worker writes from the logger's own ring.
abbrev pub is_served : Mode → Threads → Bool
is_served sync t = true
is_served async t = t.ring && (t.running && not (is_mproc_task t.task))
is_served mproc t =
    if t.shared
    then t.ring
      && (t.pipeline
          && (t.pipeline_running
              && (same t.running t.is_owner && (not t.is_owner || is_mproc_task t.task))))
    else (t.ring && (t.running && not (is_mproc_task t.task))) && (not t.is_owner && not t.pipeline)

-- Whether a move keeps a logger served.
abbrev pub survives_move : Mode → Threads → Bool
survives_move sync t = true
survives_move async t = true
survives_move mproc t = t.is_owner

move_construct-is_served :
    (mode : Mode) (t : Threads)
    → is_served mode t ≡ true
    → is_served mode (move_construct mode t).0 ≡ survives_move mode t
unfolding move_construct move_into taken stop_worker stop_mproc_worker stop_pipeline restart_async
    restart_mproc start_worker start_mproc_worker start_pipeline
move_construct-is_served sync t h = refl
move_construct-is_served async t h = ground arith
move_construct-is_served mproc t h = ground arith

move_assign-is_served :
    (mode : Mode) (t other : Threads)
    → is_served mode other ≡ true
    → is_served mode (move_assign mode t other).0 ≡ survives_move mode other
unfolding move_assign move_into taken stop_worker stop_mproc_worker stop_pipeline restart_async
    restart_mproc start_worker start_mproc_worker start_pipeline
move_assign-is_served sync t other h = refl
move_assign-is_served async t other h = ground arith
move_assign-is_served mproc t other h = ground arith

-- Moving a logger that is served into a new one, or into one whose threads are then stopped, gives one
-- that is served in synchronous and asynchronous mode and for the owner of the shared memory, but not
-- for one that has connected to it nor for one that has fallen back to its own ring.
pub move-is_served :
    (mode : Mode) (t other : Threads)
    → is_served mode other ≡ true
    → (is_served mode (move_construct mode other).0 ≡ survives_move mode other)
      × (is_served mode (move_assign mode t other).0 ≡ survives_move mode other)
move-is_served mode t other h =
    (move_construct-is_served mode other h, move_assign-is_served mode t other h)

abbrev pub is_idle : Threads → Bool
is_idle t = not t.running && not t.pipeline_running

-- Once a logger with shared memory has been moved, destroying what is left of the source clears the
-- global pointer, though the target still has the shared memory.
pub destroy-moved :
    (t : Threads)
    → is_served mproc t ≡ true
    → t.shared ≡ true
    → ((destroy mproc (move_construct mproc t).1 true).1 ≡ false)
      × ((move_construct mproc t).0.shared ≡ true)
      × (is_idle (destroy mproc (move_construct mproc t).1 true).0 ≡ true)
unfolding destroy move_construct move_into taken stop_mproc_worker stop_pipeline restart_mproc
    start_mproc_worker start_pipeline
destroy-moved t h k = ground arith
