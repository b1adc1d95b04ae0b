-- ===== src/Logger/Log.antt =====
-- `LogImplSync`, `LogImplAsync` and `LogImplWFC` (include/oneplog/logger.hpp) in release mode and
-- without fmt.
use oneplog.Prelude.{ℕ, Bool, false, if◌then◌else◌, Option, none, some, List, ℤ, pos, negsuc}
use oneplog.Common.Level.{Level}
use oneplog.Snapshot.Capture.{Arg}
use oneplog.RingBuffer.State.{Ring, Cache, notify_consumer_if_waiting}
use oneplog.RingBuffer.Acquire.{Schedule}
use oneplog.RingBuffer.Push.{try_push, try_push_wfc}
use oneplog.RingBuffer.Pop.{wait_for_completion}
use oneplog.RingBuffer.Wait.{notify_consumer}
use oneplog.Logger.Entry.{LogEntry}
use oneplog.Logger.Sinks.{
  World, SinkBinding, take_snapshot, needs_timestamp, needs_thread_id, needs_process_id,
  write_all_sync,
}

-- A call: the level, the format text by address and length, and the arguments; with what the clock,
-- the thread id and the process id are then, and what the stack holds where the snapshot is made.
pub record Call : Type 0 where
  pub level : Level
  pub fmt_ptr : ℕ
  pub fmt_len : ℕ
  pub args : List Arg
  pub now : ℕ
  pub thread_id : ℕ
  pub process_id : ℕ
  pub junk : ℕ → ℕ

module _ (bindings : List SinkBinding) where
  unfoldable pub log_impl_sync : Call → World → World
  log_impl_sync c w =
      write_all_sync bindings c.level (if needs_timestamp bindings then c.now else 0)
        (if needs_thread_id bindings then c.thread_id else 0)
        (if needs_process_id bindings then c.process_id else 0) c.junk c.fmt_ptr c.fmt_len c.args w

  -- The entry that `LogImplAsync` and `LogImplWFC` push.
  unfoldable pub make_entry : Call → LogEntry
  make_entry c = record {
    timestamp = c.now;
    thread_id = if needs_thread_id bindings then c.thread_id else 0;
    process_id = if needs_process_id bindings then c.process_id else 0;
    level = c.level;
    snapshot = take_snapshot c.junk c.fmt_ptr c.fmt_len c.args;
  }

  -- Without a ring nothing is done.
  unfoldable pub log_impl_async :
      Bool
      → Bool
      → Schedule LogEntry
      → Call
      → Cache
      → Option (Ring LogEntry)
      → Option (Cache × Option (Ring LogEntry))
  log_impl_async wfc shadow sched call c none = some (c, none)
  log_impl_async wfc shadow sched call c (some r) =
      elim (try_push wfc shadow sched (make_entry call) c r) [
        | none ↦ none
        | some (ok, c', r') ↦ some (c', some (notify_consumer_if_waiting r'))
      ]

  -- `rounds` is what other threads do in the rounds of `WaitForCompletion`; the first component is
  -- whether it saw the completion.
  abbrev await_slot :
      ℤ → List (Ring LogEntry → Ring LogEntry) → Ring LogEntry → Bool × Ring LogEntry
  await_slot (negsuc n) rounds r = (false, r)
  await_slot (pos i) rounds r = wait_for_completion (pos i) rounds (notify_consumer r)

  unfoldable pub log_impl_wfc :
      Bool
      → Schedule LogEntry
      → List (Ring LogEntry → Ring LogEntry)
      → Call
      → Cache
      → Option (Ring LogEntry)
      → Option (Bool × Cache × Option (Ring LogEntry))
  log_impl_wfc shadow sched rounds call c none = some (false, c, none)
  log_impl_wfc shadow sched rounds call c (some r) =
      elim (try_push_wfc shadow sched (make_entry call) c r) [
        | none ↦ none
        | some (slot, c', r') ↦
            let (done, after) = await_slot slot rounds r' in some (done, c', some after)
      ]
