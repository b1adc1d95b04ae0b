-- ===== src/SharedMemory/Tests.antt =====
-- The properties of a segment at concrete sizes and names
-- (include/oneplog/internal/shared_memory.hpp).
use oneplog.Prelude.{ℕ, ◌≡◌, true, false, some, none, List, [], ◌∷◌, replicate, arith}
use oneplog.SharedMemory.Layout.{
  Sizes, required_size, ring_required_size, align_up, ring_offset, name_table_offset, config_offset,
}
use oneplog.SharedMemory.Regions.{bytes_needed, parts, ArePacked, required_size-ArePacked}
use oneplog.SharedMemory.Names.{Names, new_names, register}
use oneplog.SharedMemory.NamesRefine.{register-enter}
use oneplog.SharedMemory.NamesSpec.{IsNames, names_of, enter}
use oneplog.RingBuffer.State.{drop_newest}
use oneplog.SharedMemory.Segment.{
  Answers, Handle, Segment, destroy, create, connect, created_segment, init_metadata,
  metadata_is_valid, ring_connect,
}
use oneplog.SharedMemory.Release.{
  nothing, held_by, replay, refuses_ring, create-releases, connect-releases,
}
use oneplog.SharedMemory.NamesTwice.{register-long}

abbrev sizes : Sizes
sizes = record {
  metadata = 64;
  config = 128;
  name_table = 11648;
  header = 448;
  slot = 128;
  item = 280;
}

required_size-ArePacked_example : ArePacked 0 (parts sizes 1000) (required_size sizes 1000)
unfolding bytes_needed
required_size-ArePacked_example = required_size-ArePacked sizes 1000 (omega arith)

new_names-IsNames : (max : ℕ) → IsNames max new_names
unfolding new_names
new_names-IsNames max = record {
  in_range = omega arith;
  ids = λ i h. absurd (omega (arith, h));
  ended = λ i h. absurd (omega (arith, h));
}

abbrev name : List ℕ
name = 119 ∷ 49 ∷ []

-- "w1" in a table of 64.
abbrev one_name : Names
one_name = (register 64 new_names name).0

one_name-IsNames : IsNames 64 one_name
one_name-IsNames = (register-enter 64 new_names name (new_names-IsNames 64)).0

register-enter_example :
    IsNames 64 (register 64 one_name (119 ∷ 50 ∷ [])).0
    × ((names_of (register 64 one_name (119 ∷ 50 ∷ [])).0
          ≡ (enter 64 (names_of one_name) (119 ∷ 50 ∷ [])).0)
        × ((register 64 one_name (119 ∷ 50 ∷ [])).1
            ≡ (enter 64 (names_of one_name) (119 ∷ 50 ∷ [])).1))
register-enter_example = register-enter 64 one_name (119 ∷ 50 ∷ []) one_name-IsNames

register-long_example :
    ((register 64 new_names (replicate 32 65)).1 ≡ 1)
    × ((register 64 (register 64 new_names (replicate 32 65)).0 (replicate 32 65)).1 ≡ 2)
unfolding new_names
register-long_example =
    register-long 64 new_names (replicate 32 65) (new_names-IsNames 64) (omega arith) (omega arith)

-- Descriptor 3, memory at 4096.
abbrev answers : Answers
answers = record { opened = some 3; truncated = true; stat_size = some 20000; mapped = some 4096 }

-- A segment whose ring has another version.
abbrev refused_segment : Segment
refused_segment = record (created_segment sizes 8 drop_newest) { ring_version = 2 }

create-releases_example :
    (replay (create sizes answers false 8).1 nothing
      ≡ some (held_by (create sizes answers false 8).0))
    × ((h : Handle)
        → (create sizes answers false 8).0 ≡ some h
        → replay (destroy h) (held_by (some h)) ≡ some nothing)
unfolding required_size ring_required_size align_up
create-releases_example = create-releases sizes answers false 8 (λ m e. ground arith)

connect-releases_example : replay (connect sizes answers false refused_segment).1 nothing ≡ none
unfolding refuses_ring metadata_is_valid ring_connect created_segment init_metadata ring_offset
    name_table_offset config_offset align_up
connect-releases_example =
    connect-releases sizes answers false refused_segment (λ total t m e. ground (arith, t, e))
