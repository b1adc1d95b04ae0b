-- ===== src/Sinks/Files.antt =====
-- Files by their names, with what the sinks use of <cstdio>
-- (include/oneplog/internal/static_formats.hpp and include/oneplog/sinks/sink.hpp).
use oneplog.Prelude.{
  ℕ, zero, suc, Option, none, some, List, [], ◌∷◌, ◌++◌, if◌then◌else◌, same_text, to_string,
}

-- What each name holds, `none` where there is no such file.
abbrev pub Files : Type 0
Files = List ℕ → Option (List ℕ)

unfoldable pub set_file : List ℕ → Option (List ℕ) → Files → Files
set_file name held fs other = if same_text name other then held else fs other

abbrev pub text_of : Option (List ℕ) → List ℕ
text_of none = []
text_of (some text) = text

-- `std::remove`
unfoldable pub remove : List ℕ → Files → Files
remove name fs = set_file name none fs

-- `std::rename`: nothing, without a file of the old name; a file of the new name is replaced.
unfoldable pub rename : List ℕ → List ℕ → Files → Files
rename old new fs = elim (fs old) [
  | none ↦ fs
  | some text ↦ set_file new (some text) (set_file old none fs)
]

-- To open a file for appending, which creates it where it is missing.
unfoldable pub open_append : List ℕ → Files → Files
open_append name fs = set_file name (some (text_of (fs name))) fs

-- To open a file for writing, which empties it.
unfoldable pub open_write : List ℕ → Files → Files
open_write name fs = set_file name (some []) fs

-- What a write to the open file of a name leaves.
unfoldable pub append_text : List ℕ → List ℕ → Files → Files
append_text name text fs = set_file name (some (text_of (fs name) ++ text)) fs

-- `m_filename + "." + std::to_string(i)`
unfoldable pub backup_name : List ℕ → ℕ → List ℕ
backup_name filename i = filename ++ (46 ∷ to_string i)

-- The loop over the backups, from `i` down to 1.
unfoldable pub shift_backups : List ℕ → ℕ → Files → Files
shift_backups filename zero fs = fs
shift_backups filename (suc i) fs =
    shift_backups filename i
      (rename (backup_name filename (suc i)) (backup_name filename (suc (suc i))) fs)
