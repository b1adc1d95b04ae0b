-- ===== src/Mproc/Tests.antt =====
-- A process with one entry and the owner of the shared memory, with rings of four (include/oneplog/logger.hpp).
use oneplog.Prelude.{true, false, List, [], ◌∷◌}
use oneplog.RingBuffer.State.{fresh_cache}
use oneplog.Logger.Sinks.{World, SinkType, console_sink, null_sink}
use oneplog.Logger.Lifecycle.{mproc_worker_task, worker_task}
use oneplog.Pipeline.Tests.{printer, blank, memory, turns}
use oneplog.Pipeline.Forward.{Turn}
use oneplog.Mproc.FlushRound.{Act, forwards, writes}
use oneplog.Mproc.Worker.{Rounds}
use oneplog.Mproc.Messages.{message_bindings}
use oneplog.Mproc.Delivery.{Process}

abbrev silent : World
silent = record { stdout = []; stderr = []; stdout_flushes = 0; stderr_flushes = 0 }

abbrev sinks : List SinkType
sinks = console_sink ∷ null_sink ∷ []

-- The worker makes one turn before it sees that it is to stop.
abbrev rounds : Rounds
rounds = record {
  event_fd = record { poll_in = λ n. true; read_one = λ n. 0 };
  last = turns;
  turns =
      record {
        pops = (λ r. r) ∷ [];
        still = false;
        polls = [];
        missed = λ r. r;
        before = λ r. r;
        during = λ r. r;
      }
      ∷ [];
  fuel = 3;
}

abbrev connected : Process
connected = record {
  mem = memory;
  pid = 42;
  bindings = [];
  threads = record {
    ring = true;
    shared = true;
    pipeline = true;
    pipeline_running = true;
    is_owner = false;
    running = false;
    task = worker_task;
  };
  rounds = rounds;
  cache = fresh_cache;
}

-- Nothing stands at 1000 in the owner's memory.
abbrev owner : Process
owner = record {
  mem = blank;
  pid = 41;
  bindings = message_bindings printer blank sinks;
  threads = record {
    ring = true;
    shared = true;
    pipeline = true;
    pipeline_running = true;
    is_owner = true;
    running = true;
    task = mproc_worker_task;
  };
  rounds = rounds;
  cache = fresh_cache;
}

abbrev turn : Turn
turn = record { junk = blank; others = λ q. q; sched = [] }

-- Two rounds of the worker find nothing before the pipeline forwards the entry.
abbrev first_sleeps : List (List Act)
first_sleeps = (writes ∷ []) ∷ (writes ∷ forwards turn fresh_cache ∷ []) ∷ []

abbrev second_sleeps : List (List Act)
second_sleeps = [] ∷ (writes ∷ forwards turn fresh_cache ∷ []) ∷ []
