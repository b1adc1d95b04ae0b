-- ===== src/Sinks/Static.antt =====
-- `FileSinkType`, the file sink without virtual functions, and its configuration
-- (include/oneplog/internal/static_formats.hpp). Whether `fopen` succeeds in a call is an argument
-- of the call; a call that would hand a null file to `fwrite` gives `none`.
use oneplog.Prelude.{
  ℕ, ◌-◌, Bool, true, false, ◌&&◌, Option, none, some, List, [], ◌∷◌, ◌++◌, if◌then◌else◌, ltb,
  length,
}
use oneplog.RingBuffer.State.{add_size}
use oneplog.Sinks.Files.{
  Files, text_of, remove, rename, open_append, open_write, append_text, backup_name, shift_backups,
}

pub record StaticFileSinkConfig : Type 0 where
  pub filename : List ℕ
  pub max_size : ℕ
  pub max_files : ℕ
  pub rotate_on_open : Bool

-- The state of a sink: `is_open` is `m_file != nullptr`.
pub record FileSinkType : Type 0 where
  pub filename : List ℕ
  pub max_size : ℕ
  pub max_files : ℕ
  pub rotate_on_open : Bool
  pub current_size : ℕ
  pub is_open : Bool

unfoldable pub default_sink : FileSinkType
default_sink = record {
  filename = [];
  max_size = 0;
  max_files = 0;
  rotate_on_open = false;
  current_size = 0;
  is_open = false;
}

-- The files after the oldest backup is removed and the others and the current file are renamed.
unfoldable pub make_backups : List ℕ → ℕ → Files → Files
make_backups filename max_files fs =
    if ltb 0 max_files
    then rename filename (backup_name filename 1)
        (shift_backups filename (max_files - 1) (remove (backup_name filename max_files) fs))
    else fs

unfoldable pub rotate : Bool → FileSinkType → Files → FileSinkType × Files
rotate opens s fs =
    let backed = make_backups s.filename s.max_files fs in
    (
      record s { is_open = opens; current_size = 0 },
      if opens then open_write s.filename backed else backed,
    )

unfoldable pub exceeds : ℕ → ℕ → ℕ → Bool
exceeds max_size current_size new_size =
    ltb 0 max_size && ltb max_size (add_size current_size new_size)

unfoldable pub check_rotation : Bool → ℕ → FileSinkType → Files → FileSinkType × Files
check_rotation opens new_size s fs =
    if exceeds s.max_size s.current_size new_size then rotate opens s fs else (s, fs)

-- `fopen` with "a", then the size by `fseek` and `ftell`.
unfoldable pub open_to_append : Bool → FileSinkType → Files → FileSinkType × Files
open_to_append opens s fs =
    if opens
    then (
      record s { is_open = true; current_size = length (text_of (fs s.filename)) },
      open_append s.filename fs,
    )
    else (record s { is_open = false }, fs)

unfoldable pub no_name : List ℕ → Bool
no_name [] = true
no_name (c ∷ cs) = false

unfoldable pub open_file : Bool → FileSinkType → Files → FileSinkType × Files
open_file opens s fs =
    if no_name s.filename
    then (s, fs)
    else if s.rotate_on_open
    then rotate opens s fs
    else open_to_append opens s fs

-- The two constructors: with a name only, and with a configuration.
unfoldable pub new_file_sink : Bool → List ℕ → Files → FileSinkType × Files
new_file_sink opens filename fs = open_file opens (record default_sink { filename = filename }) fs

unfoldable pub new_configured : Bool → StaticFileSinkConfig → Files → FileSinkType × Files
new_configured opens c fs =
    open_file opens
      (record {
        filename = c.filename;
        max_size = c.max_size;
        max_files = c.max_files;
        rotate_on_open = c.rotate_on_open;
        current_size = 0;
        is_open = false;
      })
      fs

unfoldable pub close : FileSinkType → FileSinkType
close s = record s { is_open = false }

-- `Open`, with its answer
unfoldable pub open_named : Bool → List ℕ → FileSinkType → Files → FileSinkType × Files × Bool
open_named opens filename s fs =
    let r = open_to_append opens (record (close s) { filename = filename }) fs in (r.0, r.1, opens)

unfoldable pub write : Bool → List ℕ → FileSinkType → Files → Option (FileSinkType × Files)
write opens msg s fs =
    let r = check_rotation opens (length msg) s fs in
    if s.is_open
    then if r.0.is_open
      then some (
        record r.0 { current_size = add_size r.0.current_size (add_size (length msg) 1) },
        append_text r.0.filename (msg ++ (10 ∷ [])) r.1,
      )
      else none
    else some (s, fs)

-- The move constructor: the new sink, and what it leaves, whose name is whatever `std::move` leaves.
unfoldable pub moved : List ℕ → FileSinkType → FileSinkType × FileSinkType
moved left other = (other, record other { filename = left; is_open = false; current_size = 0 })

-- The move assignment from another sink.
unfoldable pub move_assign : List ℕ → FileSinkType → FileSinkType → FileSinkType × FileSinkType
move_assign left s other =
    let s' = close s in
    (
      record s' {
        filename = other.filename;
        max_size = other.max_size;
        max_files = other.max_files;
        rotate_on_open = other.rotate_on_open;
        current_size = other.current_size;
        is_open = other.is_open;
      },
      record other { filename = left; is_open = false; current_size = 0 },
    )
