-- ===== src/NameTable/Tests.antt =====
-- The properties of the name tables at concrete names
-- (include/oneplog/internal/direct_mapping_table.hpp and the files it goes with).
use oneplog.Prelude.{ℕ, List, [], ◌∷◌}
use oneplog.NameTable.Direct as Direct
use oneplog.NameTable.Direct.{DirectTable, new_direct, default_name}
use oneplog.NameTable.Array as Array
use oneplog.NameTable.Array.{ArrayTable, new_array}

-- Four characters, the third NUL.
abbrev name : List ℕ
name = 97 ∷ 98 ∷ 0 ∷ 99 ∷ []

abbrev registered : DirectTable
registered = (Direct.register 8 15 new_direct 3 name).0

-- A table of one entry, which another thread takes.
abbrev full_array : ArrayTable
full_array = (Array.register 1 15 new_array 3 name).0
