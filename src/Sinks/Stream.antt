-- ===== src/Sinks/Stream.antt =====
-- The sinks with virtual functions: `FileSink`, which writes through a stream, `ConsoleSink` and
-- `NetworkSink` (include/oneplog/sinks/sink.hpp). Whether the stream opens, and whether it takes a
-- text, are arguments of a call.
use oneplog.Prelude.{
  ℕ, ◌-◌, Bool, true, false, not, ◌&&◌, ◌||◌, List, [], ◌∷◌, ◌++◌, if◌then◌else◌, ltb, length,
}
use oneplog.RingBuffer.State.{add_size}
use oneplog.NameTable.FixedName.{until_nul}
use oneplog.Logger.Sinks.{World, console_write, stderr_write, console_flush, stderr_flush}
use oneplog.Sinks.Files.{
  Files, text_of, remove, rename, open_append, append_text, backup_name, shift_backups,
}

-- The texts that `m_lastError` gets.
pub data LastError : Type 0 where
  no_error file_not_open write_failed : LastError
  failed_to_open : List ℕ → LastError
  failed_to_connect : List ℕ → ℕ → LastError

-- `failed` is what `m_file.fail()` tells.
pub record FileSink : Type 0 where
  pub filename : List ℕ
  pub max_size : ℕ
  pub max_files : ℕ
  pub current_size : ℕ
  pub rotate_on_open : Bool
  pub is_open : Bool
  pub failed : Bool
  pub has_error : Bool
  pub last_error : LastError

unfoldable pub open_file : Bool → FileSink → Files → FileSink × Files
open_file opens s fs =
    if opens
    then (
      record s {
        is_open = true;
        failed = false;
        current_size = length (text_of (fs s.filename));
        has_error = false;
      },
      open_append s.filename fs,
    )
    else (
      record s {
        is_open = false;
        failed = true;
        has_error = true;
        last_error = failed_to_open s.filename;
      },
      fs,
    )

unfoldable pub new_file_sink : Bool → List ℕ → Files → FileSink × Files
new_file_sink opens filename fs =
    open_file opens
      (record {
        filename = filename;
        max_size = 0;
        max_files = 0;
        current_size = 0;
        rotate_on_open = false;
        is_open = false;
        failed = false;
        has_error = false;
        last_error = no_error;
      })
      fs

unfoldable pub make_backups : List ℕ → ℕ → Files → Files
make_backups filename max_files fs =
    let shifted =
      if ltb 0 max_files
      then shift_backups filename (max_files - 1) (remove (backup_name filename max_files) fs)
      else fs in
    rename filename (backup_name filename 1) shifted

unfoldable pub rotate_file : Bool → FileSink → Files → FileSink × Files
rotate_file opens s fs =
    open_file opens (record s { is_open = false; current_size = 0 })
      (make_backups s.filename s.max_files fs)

unfoldable pub rotate_if_full : Bool → ℕ → FileSink → Files → FileSink × Files
rotate_if_full opens new_size s fs =
    if ltb 0 s.max_size && ltb s.max_size (add_size s.current_size new_size)
    then rotate_file opens s fs
    else (s, fs)

-- `m_file << message << '\n'`, and the code after it.
unfoldable pub put_line : Bool → List ℕ → FileSink → Files → FileSink × Files
put_line takes msg s fs =
    let failed_now = s.failed || not takes in
    (
      record s {
        current_size = add_size s.current_size (add_size (length msg) 1);
        failed = failed_now;
        has_error = if failed_now then true else s.has_error;
        last_error = if failed_now then write_failed else s.last_error;
      },
      if failed_now then fs else append_text s.filename (msg ++ (10 ∷ [])) fs,
    )

-- `Write`, of a string or of a view.
unfoldable pub write : Bool → Bool → List ℕ → FileSink → Files → FileSink × Files
write opens takes msg s fs =
    let r = rotate_if_full opens (length msg) s fs in
    if s.is_open
    then put_line takes msg r.0 r.1
    else (record s { has_error = true; last_error = file_not_open }, fs)

-- `WriteBatch`, each message with the answers it meets.
unfoldable pub write_batch : List (Bool × Bool × List ℕ) → FileSink → Files → FileSink × Files
write_batch [] s fs = (s, fs)
write_batch ((opens, takes, msg) ∷ msgs) s fs =
    let r = write opens takes msg s fs in write_batch msgs r.0 r.1

unfoldable pub close : FileSink → FileSink
close s = if s.is_open then record s { is_open = false } else s

unfoldable pub set_max_size : ℕ → FileSink → FileSink
set_max_size bytes s = record s { max_size = bytes }

unfoldable pub set_max_files : ℕ → FileSink → FileSink
set_max_files count s = record s { max_files = count }

unfoldable pub set_rotate_on_open : Bool → FileSink → FileSink
set_rotate_on_open enable s = record s { rotate_on_open = enable }

pub data Stream : Type 0 where
  std_out std_err : Stream

-- `ConsoleSink::Write`, of a string by its C string and of a view by its length.
unfoldable pub console_write_string : Stream → List ℕ → World → World
console_write_string std_out msg = console_write (until_nul msg)
console_write_string std_err msg = stderr_write (until_nul msg)

unfoldable pub console_write_view : Stream → List ℕ → World → World
console_write_view std_out msg = console_write msg
console_write_view std_err msg = stderr_write msg

unfoldable pub console_sink_flush : Stream → World → World
console_sink_flush std_out = console_flush
console_sink_flush std_err = stderr_flush

pub record NetworkSink : Type 0 where
  pub host : List ℕ
  pub port : ℕ
  pub is_connected : Bool
  pub has_error : Bool
  pub last_error : LastError

unfoldable pub new_network_sink : List ℕ → ℕ → NetworkSink
new_network_sink host port = record {
  host = host;
  port = port;
  is_connected = false;
  has_error = false;
  last_error = no_error;
}

-- `Connect`, which is not written yet.
unfoldable pub connect : NetworkSink → Bool
connect s = false

unfoldable pub network_write : List ℕ → NetworkSink → NetworkSink
network_write msg s =
    if s.is_connected
    then s
    else if connect s
    then s
    else record s { has_error = true; last_error = failed_to_connect s.host s.port }

unfoldable pub network_close : NetworkSink → NetworkSink
network_close s = record s { is_connected = false }
