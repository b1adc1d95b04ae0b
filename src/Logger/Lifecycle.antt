-- ===== src/Logger/Lifecycle.antt =====
-- Which parts and threads a logger has: construction, destruction and moves, and the start and the stop
-- of its threads (include/oneplog/logger.hpp). A stop that joins a thread is one step; what the thread
-- and the drain behind the join do to the rings is in Loop and Worker.
use oneplog.Prelude.{Bool, true, false, ◌&&◌, if◌then◌else◌}
use oneplog.Common.Level.{Mode, sync, async, mproc}

-- What `m_worker` runs.
pub data WorkerTask : Type 0 where
  worker_task mproc_worker_task : WorkerTask

-- `ring`, `shared` and `pipeline` are whether the pointer is set; `running` is `m_running`, and the
-- thread's own flag is `pipeline_running`.
pub record Threads : Type 0 where
  pub ring : Bool
  pub shared : Bool
  pub pipeline : Bool
  pub pipeline_running : Bool
  pub is_owner : Bool
  pub running : Bool
  pub task : WorkerTask

abbrev pub no_threads : Threads
no_threads = record {
  ring = false;
  shared = false;
  pipeline = false;
  pipeline_running = false;
  is_owner = false;
  running = false;
  task = worker_task;
}

unfoldable pub start_worker : Mode → Threads → Threads
start_worker sync t = t
start_worker async t = if t.running then t else record t { running = true; task = worker_task }
start_worker mproc t = if t.running then t else record t { running = true; task = worker_task }

unfoldable pub stop_worker : Mode → Threads → Threads
stop_worker sync t = t
stop_worker async t = if t.running then record t { running = false } else t
stop_worker mproc t = if t.running then record t { running = false } else t

-- `PipelineThread::Start` and `Stop`
unfoldable pub start_pipeline : Threads → Threads
start_pipeline t = if t.pipeline_running then t else record t { pipeline_running = true }

unfoldable pub stop_pipeline : Threads → Threads
stop_pipeline t = if t.pipeline_running then record t { pipeline_running = false } else t

unfoldable pub start_mproc_worker : Threads → Threads
start_mproc_worker t =
    if t.running then t else record t { running = true; task = mproc_worker_task }

unfoldable pub stop_mproc_worker : Threads → Threads
stop_mproc_worker t =
    let stopped = if t.pipeline then stop_pipeline t else t in
    if stopped.running then record stopped { running = false } else stopped

unfoldable pub init_async : Mode → Threads → Threads
init_async mode t = start_worker mode (record t { ring = true })

-- The ring and the pipeline on the shared memory that has been created or connected.
unfoldable pub with_pipeline : Bool → Threads → Threads
with_pipeline owner t =
    start_pipeline (record t { shared = true; is_owner = owner; ring = true; pipeline = true })

-- `InitMProc`: whether `Create` and `Connect` succeed, and the second component is whether the
-- global pointer is set.
unfoldable pub init_mproc : Mode → Bool → Bool → Threads → Bool → Threads × Bool
init_mproc mode created connected t global =
    if created
    then (start_mproc_worker (with_pipeline true t), true)
    else if connected
    then (with_pipeline false t, true)
    else (init_async mode t, global)

unfoldable pub initialize : Mode → Bool → Bool → Bool → Threads × Bool
initialize sync created connected global = (no_threads, global)
initialize async created connected global = (init_async async no_threads, global)
initialize mproc created connected global = init_mproc mproc created connected no_threads global

-- The destructor, and what is left of the global pointer.
unfoldable pub destroy : Mode → Threads → Bool → Threads × Bool
destroy sync t global = (t, global)
destroy async t global = (stop_worker async t, global)
destroy mproc t global = (stop_mproc_worker t, false)

unfoldable pub restart_mproc : Threads → Threads
restart_mproc t =
    let piped = if t.is_owner && t.pipeline then start_pipeline t else t in
    if t.shared then start_mproc_worker piped else t

unfoldable pub restart_async : Threads → Threads
restart_async t = if t.ring then start_worker async t else t

-- What the target has taken over, and what it left; the pipeline goes with its thread.
unfoldable pub taken : Mode → Threads → Threads → Threads × Threads
taken sync t other = (t, other)
taken async t other = (record t { ring = other.ring }, record other { ring = false })
taken mproc t other = (
  record t {
    ring = other.ring;
    shared = other.shared;
    pipeline = other.pipeline;
    pipeline_running = other.pipeline_running;
    is_owner = other.is_owner;
  },
  record other {
    ring = false;
    shared = false;
    pipeline = false;
    pipeline_running = false;
    is_owner = false;
  },
)

-- Stop the source, take its resources over, and start again.
unfoldable pub move_into : Mode → Threads → Threads → Threads × Threads
move_into sync t other = taken sync t other
move_into async t other =
    let r = taken async t (stop_worker async other) in (restart_async r.0, r.1)
move_into mproc t other =
    let r = taken mproc t (stop_mproc_worker other) in (restart_mproc r.0, r.1)

-- The move constructor and the move assignment.
unfoldable pub move_construct : Mode → Threads → Threads × Threads
move_construct mode other = move_into mode no_threads other

unfoldable pub move_assign : Mode → Threads → Threads → Threads × Threads
move_assign sync t other = move_into sync t other
move_assign async t other = move_into async (stop_worker async t) other
move_assign mproc t other = move_into mproc (stop_mproc_worker t) other
