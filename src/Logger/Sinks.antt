-- ===== src/Logger/Sinks.antt =====
-- The static sinks and `MessageOnlyFormat` (include/oneplog/internal/static_formats.hpp),
-- `SinkBinding` and `SinkBindingList` (include/oneplog/internal/logger_config.hpp).
use oneplog.Prelude.{ℕ, ◌+◌, Bool, false, ◌||◌, List, [], ◌∷◌, ◌++◌}
use oneplog.Common.Level.{Level}
use oneplog.Snapshot.Capture.{Snapshot, Arg, new_snapshot, capture_string_view, capture}
use oneplog.Snapshot.Format.{Printer, format_all}
use oneplog.Logger.Entry.{LogEntry}

-- What has been written to the two streams, and how often each was flushed.
pub record World : Type 0 where
  pub stdout : List ℕ
  pub stderr : List ℕ
  pub stdout_flushes : ℕ
  pub stderr_flushes : ℕ

pub data SinkType : Type 0 where
  null_sink console_sink stderr_sink : SinkType

-- `Write(std::string_view)` of each: the bytes and a newline.
unfoldable pub null_write : List ℕ → World → World
null_write msg w = w

unfoldable pub console_write : List ℕ → World → World
console_write msg w = record w { stdout = w.stdout ++ msg ++ (10 ∷ []) }

unfoldable pub stderr_write : List ℕ → World → World
stderr_write msg w = record w { stderr = w.stderr ++ msg ++ (10 ∷ []) }

abbrev pub sink_write : SinkType → List ℕ → World → World
sink_write null_sink = null_write
sink_write console_sink = console_write
sink_write stderr_sink = stderr_write

-- `Flush()` of each.
unfoldable pub null_flush : World → World
null_flush w = w

unfoldable pub console_flush : World → World
console_flush w = record w { stdout_flushes = w.stdout_flushes + 1 }

unfoldable pub stderr_flush : World → World
stderr_flush w = record w { stderr_flushes = w.stderr_flushes + 1 }

abbrev pub sink_flush : SinkType → World → World
sink_flush null_sink = null_flush
sink_flush console_sink = console_flush
sink_flush stderr_sink = stderr_flush

-- What `SinkBinding` asks of its format, without fmt: `Requirements`, and `FormatEntry` of a level, a
-- timestamp, a thread id, a process id and a snapshot.
pub record Format : Type 0 where
  pub needs_timestamp : Bool
  pub needs_thread_id : Bool
  pub needs_process_id : Bool
  pub format_fields : Level → ℕ → ℕ → ℕ → Snapshot → List ℕ

-- `MessageOnlyFormat`
unfoldable pub message_only : Printer → (ℕ → ℕ) → Format
message_only p mem = record {
  needs_timestamp = false;
  needs_thread_id = false;
  needs_process_id = false;
  format_fields = λ level timestamp tid pid s. format_all p mem s;
}

-- `FormatEntry(const LogEntry&)`
unfoldable pub format_entry : Format → LogEntry → List ℕ
format_entry f e = f.format_fields e.level e.timestamp e.thread_id e.process_id e.snapshot

pub record SinkBinding : Type 0 where
  pub sink : SinkType
  pub format : Format

-- The snapshot that the calls without fmt make of a format text, given by address and length, and
-- the arguments: what does not fit is left out.
unfoldable pub take_snapshot : (ℕ → ℕ) → ℕ → ℕ → List Arg → Snapshot
take_snapshot junk ptr len [] = (capture_string_view ptr len (new_snapshot junk)).1
take_snapshot junk ptr len (a ∷ args) =
    (capture (a ∷ args) (capture_string_view ptr len (new_snapshot junk)).1).1

-- `WriteSync<false>`
unfoldable pub write_sync :
    SinkBinding → Level → ℕ → ℕ → ℕ → (ℕ → ℕ) → ℕ → ℕ → List Arg → World → World
write_sync b level timestamp tid pid junk ptr len args w =
    sink_write b.sink
      (b.format.format_fields level timestamp tid pid (take_snapshot junk ptr len args)) w

-- `WriteAsync<false>`
unfoldable pub write_async : SinkBinding → LogEntry → World → World
write_async b e w = sink_write b.sink (format_entry b.format e) w

unfoldable pub needs_timestamp : List SinkBinding → Bool
needs_timestamp [] = false
needs_timestamp (b ∷ bs) = b.format.needs_timestamp || needs_timestamp bs

unfoldable pub needs_thread_id : List SinkBinding → Bool
needs_thread_id [] = false
needs_thread_id (b ∷ bs) = b.format.needs_thread_id || needs_thread_id bs

unfoldable pub needs_process_id : List SinkBinding → Bool
needs_process_id [] = false
needs_process_id (b ∷ bs) = b.format.needs_process_id || needs_process_id bs

unfoldable pub write_all_sync :
    List SinkBinding → Level → ℕ → ℕ → ℕ → (ℕ → ℕ) → ℕ → ℕ → List Arg → World → World
write_all_sync [] level timestamp tid pid junk ptr len args w = w
write_all_sync (b ∷ bs) level timestamp tid pid junk ptr len args w =
    write_all_sync bs level timestamp tid pid junk ptr len args
      (write_sync b level timestamp tid pid junk ptr len args w)

unfoldable pub write_all_async : List SinkBinding → LogEntry → World → World
write_all_async [] e w = w
write_all_async (b ∷ bs) e w = write_all_async bs e (write_async b e w)

unfoldable pub flush_all : List SinkBinding → World → World
flush_all [] w = w
flush_all (b ∷ bs) w = flush_all bs (sink_flush b.sink w)
