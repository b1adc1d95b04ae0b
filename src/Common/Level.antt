-- ===== src/Common/Level.antt =====
-- `Level`, `LevelNameStyle` and `Mode`, and the conversions from and to their names
-- (include/oneplog/common.hpp).
use Prim.Native.String.{String}
use text.Mathlib.Text.{◌==◌ as str_eq}
use oneplog.Prelude.{
  ℕ, zero, suc, ◌≡◌, refl, Bool, false, ◌||◌, if◌then◌else◌, List, [], ◌∷◌, ltb, leb,
}

pub data Level : Type 0 where
  trace debug info warn error critical off : Level

-- The underlying value.
abbrev pub level_value : Level → ℕ
level_value trace = 0
level_value debug = 1
level_value info = 2
level_value warn = 3
level_value error = 4
level_value critical = 5
level_value off = 6

pub data LevelNameStyle : Type 0 where
  full short4 short1 : LevelNameStyle

abbrev full_names : List String
full_names = "trace" ∷ "debug" ∷ "info" ∷ "warn" ∷ "error" ∷ "critical" ∷ "off" ∷ []

abbrev short4_names : List String
short4_names = "TRAC" ∷ "DBUG" ∷ "INFO" ∷ "WARN" ∷ "ERRO" ∷ "CRIT" ∷ "OFF" ∷ []

abbrev short1_names : List String
short1_names = "T" ∷ "D" ∷ "I" ∷ "W" ∷ "E" ∷ "C" ∷ "O" ∷ []

abbrev name_at : List String → ℕ → String
name_at [] i = ""
name_at (n ∷ names) zero = n
name_at (n ∷ names) (suc i) = name_at names i

abbrev names_of : LevelNameStyle → List String
names_of full = full_names
names_of short4 = short4_names
names_of short1 = short1_names

-- `LevelToString` of an underlying value; one beyond `Off` has no name.
unfoldable pub level_to_string : ℕ → LevelNameStyle → String
level_to_string value style =
    if ltb (level_value off) value then "UNKN" else name_at (names_of style) value

-- Whether a text is one of the names.
abbrev is_one_of : String → List String → Bool
is_one_of s [] = false
is_one_of s (n ∷ names) = str_eq s n || is_one_of s names

unfoldable pub string_to_level : String → Level
string_to_level s =
    if is_one_of s ("trace" ∷ "TRACE" ∷ "TRAC" ∷ "T" ∷ [])
    then trace
    else if is_one_of s ("debug" ∷ "DEBUG" ∷ "DBUG" ∷ "D" ∷ [])
    then debug
    else if is_one_of s ("info" ∷ "INFO" ∷ "I" ∷ [])
    then info
    else if is_one_of s ("warn" ∷ "WARN" ∷ "warning" ∷ "WARNING" ∷ "W" ∷ [])
    then warn
    else if is_one_of s ("error" ∷ "ERROR" ∷ "ERRO" ∷ "E" ∷ [])
    then error
    else if is_one_of s ("critical" ∷ "CRITICAL" ∷ "CRIT" ∷ "C" ∷ [])
    then critical
    else if is_one_of s ("off" ∷ "OFF" ∷ "O" ∷ [])
    then off
    else off

-- `ShouldLog`
unfoldable pub should_log : Level → Level → Bool
should_log level current = leb (level_value current) (level_value level)

pub data Mode : Type 0 where
  sync async mproc : Mode

unfoldable pub mode_to_string : Mode → String
mode_to_string sync = "sync"
mode_to_string async = "async"
mode_to_string mproc = "mproc"

unfoldable pub string_to_mode : String → Mode
string_to_mode s =
    if is_one_of s ("sync" ∷ "Sync" ∷ "SYNC" ∷ [])
    then sync
    else if is_one_of s ("async" ∷ "Async" ∷ "ASYNC" ∷ [])
    then async
    else if is_one_of s
        ("mproc" ∷ "MProc" ∷ "MPROC" ∷ "multiprocess" ∷ "MultiProcess" ∷ "MULTIPROCESS" ∷ [])
    then mproc
    else async

-- The name of a level, in any style, reads back as that level.
pub string_to_level-level_to_string :
    (l : Level) (style : LevelNameStyle)
    → string_to_level (level_to_string (level_value l) style) ≡ l
unfolding string_to_level level_to_string
string_to_level-level_to_string trace full = refl
string_to_level-level_to_string trace short4 = refl
string_to_level-level_to_string trace short1 = refl
string_to_level-level_to_string debug full = refl
string_to_level-level_to_string debug short4 = refl
string_to_level-level_to_string debug short1 = refl
string_to_level-level_to_string info full = refl
string_to_level-level_to_string info short4 = refl
string_to_level-level_to_string info short1 = refl
string_to_level-level_to_string warn full = refl
string_to_level-level_to_string warn short4 = refl
string_to_level-level_to_string warn short1 = refl
string_to_level-level_to_string error full = refl
string_to_level-level_to_string error short4 = refl
string_to_level-level_to_string error short1 = refl
string_to_level-level_to_string critical full = refl
string_to_level-level_to_string critical short4 = refl
string_to_level-level_to_string critical short1 = refl
string_to_level-level_to_string off full = refl
string_to_level-level_to_string off short4 = refl
string_to_level-level_to_string off short1 = refl

-- The name of a mode reads back as that mode.
pub string_to_mode-mode_to_string : (m : Mode) → string_to_mode (mode_to_string m) ≡ m
unfolding string_to_mode mode_to_string
string_to_mode-mode_to_string sync = refl
string_to_mode-mode_to_string async = refl
string_to_mode-mode_to_string mproc = refl
