-- ===== src/Sinks/Tests.antt =====
-- A file sink with files of three bytes and two backups, in an empty directory
-- (include/oneplog/internal/static_formats.hpp and include/oneplog/sinks/sink.hpp).
use oneplog.Prelude.{
  ℕ, ◌≡◌, refl, Bool, true, false, none, some, List, [], ◌∷◌, arith, same_text, to_string,
}
use oneplog.Sinks.Files.{
  Files, open_append, open_write, append_text, set_file, rename, remove, backup_name, shift_backups,
}
use oneplog.Sinks.Backups.{file_name}
use oneplog.Sinks.Pack.{Packed, lines_text, pack}
use oneplog.Sinks.Family.{family_text}
use oneplog.Sinks.Sizes.{IsBounded}
use oneplog.Sinks.Static.{
  StaticFileSinkConfig, FileSinkType, new_configured, no_name, write, rotate, check_rotation,
  exceeds, make_backups, open_file, open_to_append,
}
use oneplog.Sinks.StaticPacks.{Holds, write_all, write_all-Holds}
use oneplog.Sinks.StaticFiles.{new_configured-empty, write_all-keeps, write_all-IsBounded}
use oneplog.Sinks.Stream as Stream
use oneplog.Sinks.Stream.{FileSink, write_batch}
use oneplog.Sinks.StreamPacks.{served, newest_first}
use oneplog.Sinks.Agree.{limited, write_batch-write_all, write_batch-lost}

abbrev config : StaticFileSinkConfig
config = record { filename = 97 ∷ []; max_size = 3; max_files = 2; rotate_on_open = false }

abbrev rotating : StaticFileSinkConfig
rotating = record config { rotate_on_open = true }

abbrev empty_directory : Files
empty_directory name = none

abbrev made : FileSinkType × Files
made = new_configured true config empty_directory

abbrev messages : List (List ℕ)
messages = (53 ∷ 54 ∷ []) ∷ (51 ∷ 52 ∷ []) ∷ (49 ∷ 50 ∷ []) ∷ []

-- Three messages, written into three files.
written : List ℕ
unfolding write check_rotation rotate new_configured open_file open_to_append make_backups exceeds
    open_append append_text set_file rename remove backup_name shift_backups same_text to_string
    no_name file_name
written = elim (write_all messages made.0 made.1) [
  | none ↦ []
  | some r ↦ family_text config.filename 2 r.1
]

written_in_order : written ≡ 49 ∷ 50 ∷ 10 ∷ 51 ∷ 52 ∷ 10 ∷ 53 ∷ 54 ∷ 10 ∷ []
unfolding written open_write
written_in_order = refl

named : no_name config.filename ≡ false
unfolding no_name
named = refl

write_all-Holds_example :
    (r : FileSinkType × Files) × (write_all messages made.0 made.1 ≡ some r)
    × Holds config r.0 r.1 (pack 3 messages ([], []))
write_all-Holds_example =
    write_all-Holds config made.0 made.1 messages ([], [])
      (new_configured-empty config empty_directory named (λ i. refl)) (omega arith)

abbrev packed : Packed
packed = pack 3 messages ([], [])

-- The files after the three messages.
left :
    (r : FileSinkType × Files) × (write_all messages made.0 made.1 ≡ some r)
    × Holds config r.0 r.1 packed
left =
    write_all-Holds config made.0 made.1 messages ([], [])
      (new_configured-empty config empty_directory named (λ i. refl)) (omega arith)

write_all-keeps_example :
    (r : FileSinkType × Files) × (write_all messages made.0 made.1 ≡ some r)
    × (family_text config.filename 2 r.1 ≡ lines_text messages)
write_all-keeps_example =
    write_all-keeps config empty_directory messages named (λ i. refl) (omega arith) (omega arith)

write_all-IsBounded_example :
    (r : FileSinkType × Files) × (write_all messages made.0 made.1 ≡ some r)
    × IsBounded 3 (r.1 (file_name config.filename 1))
write_all-IsBounded_example =
    write_all-IsBounded config empty_directory messages 1 named (λ i. refl) (omega arith)
      (omega arith) (omega arith)

-- A sink with a full file.
abbrev full : FileSinkType
full = record {
  filename = 97 ∷ [];
  max_size = 3;
  max_files = 2;
  rotate_on_open = false;
  current_size = 3;
  is_open = true;
}

abbrev batch : List (List ℕ)
batch = (49 ∷ 50 ∷ []) ∷ (51 ∷ 52 ∷ []) ∷ []

write_batch-write_all_example :
    (r : FileSinkType × Files) × (write_all (newest_first batch []) made.0 made.1 ≡ some r)
    × (r.1 (file_name config.filename 1)
        ≡ (write_batch
              (served batch)
              (limited config.filename 3 2 empty_directory).0
              (limited config.filename 3 2 empty_directory).1).1
            (file_name config.filename 1))
write_batch-write_all_example =
    write_batch-write_all config empty_directory batch 1 named (λ i. refl) (omega arith)
      (omega arith) (omega arith)

abbrev full_stream : FileSink
full_stream = record {
  filename = 97 ∷ [];
  max_size = 3;
  max_files = 2;
  current_size = 3;
  rotate_on_open = false;
  is_open = true;
  failed = false;
  has_error = false;
  last_error = Stream.no_error;
}

abbrev later : List (Bool × Bool × List ℕ)
later = (true, true, 50 ∷ []) ∷ []

write_batch-lost_example :
    ((write_batch ((false, true, 49 ∷ []) ∷ later) full_stream empty_directory).1
      ≡ Stream.make_backups (97 ∷ []) 2 empty_directory)
    × ((write_batch ((false, true, 49 ∷ []) ∷ later) full_stream empty_directory).0.is_open ≡ false)
    × ((write_batch ((false, true, 49 ∷ []) ∷ later) full_stream empty_directory).0.has_error
        ≡ true)
write_batch-lost_example =
    write_batch-lost true (49 ∷ []) later full_stream empty_directory refl (ground arith)
