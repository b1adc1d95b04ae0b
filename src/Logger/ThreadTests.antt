-- ===== src/Logger/ThreadTests.antt =====
-- A logger that is moved (include/oneplog/logger.hpp).
use oneplog.Prelude.{◌≡◌, refl, true, false}
use oneplog.Common.Level.{mproc}
use oneplog.Logger.Lifecycle.{Threads, worker_task, no_threads, move_construct, move_assign}
use oneplog.Logger.Served.{is_served, move-is_served}

-- A logger of several processes that has connected to the memory of another.
abbrev connected : Threads
connected = record {
  ring = true;
  shared = true;
  pipeline = true;
  pipeline_running = true;
  is_owner = false;
  running = false;
  task = worker_task;
}

move-is_served_example :
    (is_served mproc (move_construct mproc connected).0 ≡ false)
    × (is_served mproc (move_assign mproc no_threads connected).0 ≡ false)
move-is_served_example = move-is_served mproc no_threads connected refl
