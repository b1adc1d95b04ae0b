-- ===== src/Formats/Text.antt =====
-- Pieces of a line: names of a fixed width, padded numbers, what `snprintf` leaves in a buffer, and
-- colours (include/oneplog/internal/static_formats.hpp).
use Prim.Native.Char.{code}
use Prim.Native.String.{String}
use oneplog.Prelude.{
  ℕ, ◌-◌, ◌/◌, List, [], ◌∷◌, ◌++◌, if◌then◌else◌, leb, length, take, replicate, to_string,
}
use oneplog.Common.Level.{Level, trace, debug, info, warn, error, critical, off}
use oneplog.NameTable.FixedName.{until_nul}

abbrev pub codes : String → List ℕ
codes String.[] = []
codes (String.◌∷◌ c s) = code c ∷ codes s

-- `FormatFixedWidthName`
unfoldable pub format_fixed_width_name : List ℕ → List ℕ
format_fixed_width_name name =
    if leb 6 (length name)
    then take 6 name
    else let padding = 6 - length name in
      let left_pad = padding / 2 in
      replicate left_pad 32 ++ (name ++ replicate (padding - left_pad) 32)

-- A number with `%0<width>d` or `%0<width>u`.
unfoldable pub zero_padded : ℕ → ℕ → List ℕ
zero_padded width n = replicate (width - length (to_string n)) 48 ++ to_string n

-- The C string in a buffer of a size after `snprintf` of a text.
unfoldable pub buffered : ℕ → List ℕ → List ℕ
buffered size text = until_nul (take (size - 1) text)

-- `color::kReset`, and `color::GetLevelColor`
abbrev pub reset_color : List ℕ
reset_color = 27 ∷ codes "[0m"

unfoldable pub get_level_color : Level → List ℕ
get_level_color trace = 27 ∷ codes "[1m"
get_level_color debug = 27 ∷ codes "[1;34m"
get_level_color info = 27 ∷ codes "[1;32m"
get_level_color warn = 27 ∷ codes "[1;38;5;208m"
get_level_color error = 27 ∷ codes "[1;31m"
get_level_color critical = 27 ∷ codes "[1;35m"
get_level_color off = reset_color
