-- ===== src/Logger/Tests.antt =====
-- The logger with one console and a ring of four (include/oneplog/logger.hpp).
use oneplog.Prelude.{ℕ, ◌+◌, ◌%◌, ◌≡◌, refl, true, if◌then◌else◌, List, [], ◌∷◌, ◌==◌, arith}
use oneplog.Common.Level.{info}
use oneplog.Snapshot.Capture.{int32_arg}
use oneplog.Snapshot.Format.{Printer}
use oneplog.RingBuffer.State.{Ring, new_ring, drop_newest, fresh_cache, notify_consumer_if_waiting}
use oneplog.RingBuffer.Inv.{IsValid, contents, new_ring-IsValid, filled}
use oneplog.Logger.Entry.{LogEntry, new_release_entry}
use oneplog.Logger.Sinks.{World, SinkBinding, console_sink, message_only}
use oneplog.Logger.Log.{Call, make_entry}
use oneplog.Common.Level.{trace, debug, sync}
use oneplog.Prelude.{none}
use oneplog.RingBuffer.Acquire.{Schedule}
use oneplog.Logger.Levels.{Logging, log_all_by, passing, log_all_by-sync}
use oneplog.Logger.Worker.{drain, pop_and_process}
use oneplog.Logger.Flush.{Others}
use oneplog.RingBuffer.Wait.{EventFd}
use oneplog.Prelude.{ltb, ◌-◌, ◌&&◌, Bool, false}
use oneplog.RingBuffer.State.{size_mod}
use oneplog.Logger.Loop.{Turn}
use oneplog.Prelude.{some}
use oneplog.Logger.Log.{log_impl_wfc}
use oneplog.Logger.Completion.{IsDrain, drained, Completed, log_impl_wfc-Completed}
use oneplog.Logger.AsyncSync.{log_all_sync}

abbrev digits : ℕ → List ℕ
digits v = (48 + v) ∷ []

abbrev printer : Printer
printer = record {
  print_int32 = digits;
  print_int64 = digits;
  print_uint32 = digits;
  print_uint64 = digits;
  print_float = digits;
  print_double = digits;
  print_pointer = digits;
}

abbrev blank : ℕ → ℕ
blank i = 0

-- At 1000 stands "a{}".
abbrev memory : ℕ → ℕ
memory i = if i == 1000 then 97 else if i == 1001 then 123 else if i == 1002 then 125 else 0

abbrev console : List SinkBinding
console = record { sink = console_sink; format = message_only printer memory } ∷ []

abbrev quiet : World
quiet = record { stdout = []; stderr = []; stdout_flushes = 0; stderr_flushes = 0 }

abbrev call : Call
call = record {
  level = info;
  fmt_ptr = 1000;
  fmt_len = 3;
  args = int32_arg 5 ∷ [];
  now = 7;
  thread_id = 1;
  process_id = 2;
  junk = blank;
}

abbrev empty_ring : Ring LogEntry
empty_ring = new_ring (new_release_entry blank) true 4 drop_newest

empty_ring-IsValid : IsValid empty_ring × (contents empty_ring ≡ [])
empty_ring-IsValid = new_ring-IsValid (new_release_entry blank) true 4 drop_newest (omega arith)

-- The ring with the entry of the call.
abbrev one_entry : Ring LogEntry
one_entry = notify_consumer_if_waiting (
    notify_consumer_if_waiting (
      filled empty_ring (make_entry console call)
        (empty_ring.slots (empty_ring.head % empty_ring.capacity)).wfc))

-- What a thread does that makes the call where there is room.
abbrev has_room : Ring LogEntry → Bool
has_room r = ltb (r.head - r.tail) r.capacity && ltb (r.head + 1) size_mod

abbrev caller : Ring LogEntry → Ring LogEntry
caller r =
    if has_room r
    then notify_consumer_if_waiting (
        notify_consumer_if_waiting
          (filled r (make_entry console call) (r.slots (r.head % r.capacity)).wfc))
    else r

abbrev event_fd : EventFd
event_fd = record { poll_in = λ n. ltb 0 n; read_one = λ n. n - 1 }

abbrev worker_turns : List Turn
worker_turns =
    record {
      pops = caller ∷ caller ∷ [];
      still = true;
      polls = [];
      missed = caller;
      before = caller;
      during = caller;
    }
    ∷ record {
      pops = caller ∷ [];
      still = false;
      polls = [];
      missed = caller;
      before = caller;
      during = caller;
    }
    ∷ []

-- The worker's drain as what other threads do.
abbrev worker : Ring LogEntry → Ring LogEntry
worker q = drained q (drain console true true (q.capacity + 1) q quiet)

log_impl_wfc-Completed_example :
    Completed console true fresh_cache
      (log_impl_wfc console true ((λ q. q) ∷ []) (worker ∷ []) call fresh_cache (some empty_ring))
unfolding new_ring IsDrain
log_impl_wfc-Completed_example =
    log_impl_wfc-Completed console true worker (λ q. q) [] [] call fresh_cache empty_ring
      (λ q v. (quiet, refl)) empty_ring-IsValid.0 refl (omega arith) (omega arith)

-- The second call is below the minimal level.
abbrev calls : List (Schedule LogEntry × Call)
calls = ([], call) ∷ ([], record call { level = trace }) ∷ []

abbrev logging : Logging
logging = record { cache = fresh_cache; ring = none; world = quiet }

log_all_by-sync_example :
    log_all_by console true true sync debug calls logging
    ≡ some (record logging { world = log_all_sync console (passing debug calls) quiet })
log_all_by-sync_example = log_all_by-sync console true true debug calls logging

-- In the first sleep of `Flush` a thread logs, in the others the worker takes a round.
abbrev logs : Others
logs s = (caller s.0, s.1)

abbrev works : Others
works s = let (had, r', w') = pop_and_process console true true s.0 s.1 in (r', w')

abbrev sleeps : List Others
sleeps = logs ∷ works ∷ works ∷ []
