-- ===== src/Logger/Entry.antt =====
-- `SourceLocation`, `LogEntryDebug` and `LogEntryRelease`
-- (include/oneplog/internal/log_entry.hpp). A `const char*` is its address, or none if it is null;
-- the reserved bytes are left out.
use oneplog.Prelude.{ℕ, Bool, true, false, ◌&&◌, Option, none, some, ltb}
use oneplog.Common.Level.{Level, info}
use oneplog.Snapshot.Capture.{Snapshot, new_snapshot}

pub record SourceLocation : Type 0 where
  pub file : Option ℕ
  pub line : ℕ
  pub function : Option ℕ

unfoldable pub no_location : SourceLocation
no_location = record { file = none; line = 0; function = none }

abbrev is_set : Option ℕ → Bool
is_set none = false
is_set (some p) = true

unfoldable pub location_is_valid : SourceLocation → Bool
location_is_valid l = is_set l.file && ltb 0 l.line

pub record LogEntryDebug : Type 0 where
  pub timestamp : ℕ
  pub file : Option ℕ
  pub function : Option ℕ
  pub thread_id : ℕ
  pub process_id : ℕ
  pub line : ℕ
  pub level : Level
  pub snapshot : Snapshot

-- The default constructor; `junk` is what the snapshot's bytes hold before.
unfoldable pub new_debug_entry : (ℕ → ℕ) → LogEntryDebug
new_debug_entry junk = record {
  timestamp = 0;
  file = none;
  function = none;
  thread_id = 0;
  process_id = 0;
  line = 0;
  level = info;
  snapshot = new_snapshot junk;
}

-- The constructor from a location.
unfoldable pub debug_entry_at : ℕ → SourceLocation → ℕ → ℕ → Level → Snapshot → LogEntryDebug
debug_entry_at ts loc tid pid lvl snap = record {
  timestamp = ts;
  file = loc.file;
  function = loc.function;
  thread_id = tid;
  process_id = pid;
  line = loc.line;
  level = lvl;
  snapshot = snap;
}

unfoldable pub get_location : LogEntryDebug → SourceLocation
get_location e = record { file = e.file; line = e.line; function = e.function }

pub record LogEntryRelease : Type 0 where
  pub timestamp : ℕ
  pub thread_id : ℕ
  pub process_id : ℕ
  pub level : Level
  pub snapshot : Snapshot

unfoldable pub new_release_entry : (ℕ → ℕ) → LogEntryRelease
new_release_entry junk = record {
  timestamp = 0;
  thread_id = 0;
  process_id = 0;
  level = info;
  snapshot = new_snapshot junk;
}

-- The type alias in release mode.
abbrev pub LogEntry : Type 0
LogEntry = LogEntryRelease
