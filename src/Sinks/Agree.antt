-- ===== src/Sinks/Agree.antt =====
-- Both file sinks side by side, and `FileSink` where its file cannot be opened again
-- (include/oneplog/sinks/sink.hpp and include/oneplog/internal/static_formats.hpp).
use oneplog.Prelude.{
  ℕ, suc, ◌≤◌, ◌<◌, ◌≡◌, refl, ◌∙◌, sym, ap, Bool, true, false, none, some, List, [], ◌∷◌, length,
  if◌then◌else◌, arith,
}
use oneplog.RingBuffer.State.{size_mod}
use oneplog.Sinks.Files.{Files, text_of}
use oneplog.Sinks.Backups.{file_name}
use oneplog.Sinks.Pack.{lines_text, open_append-FilesHold}
use oneplog.Sinks.Static.{StaticFileSinkConfig, FileSinkType, new_configured, no_name}
use oneplog.Sinks.StaticPacks.{write_all, write_all-Holds}
use oneplog.Sinks.StaticFiles.{new_configured-empty}
use oneplog.Sinks.Stream.{
  FileSink, new_file_sink, set_max_size, set_max_files, open_file, make_backups, rotate_file,
  rotate_if_full, put_line, write, write_batch, file_not_open,
}
use oneplog.Sinks.StreamPacks.{
  StreamHolds, backups, served, newest_first, write_batch-StreamHolds, is_full, write-opened,
  rotate_if_full-eq,
}

-- A `FileSink` with its limits set.
abbrev pub limited : List ℕ → ℕ → ℕ → Files → FileSink × Files
limited base max_size max_files fs =
    let made = new_file_sink true base fs in
    (set_max_files max_files (set_max_size max_size made.0), made.1)

limited-StreamHolds :
    (base : List ℕ) (max_size max_files : ℕ) (fs : Files)
    → ((i : ℕ) → fs (file_name base i) ≡ none)
    → StreamHolds base max_size max_files
        (limited base max_size max_files fs).0
        (limited base max_size max_files fs).1
        ([], [])
unfolding new_file_sink set_max_size set_max_files open_file file_name
limited-StreamHolds base max_size max_files fs free = record {
  same_name = refl;
  same_size = refl;
  same_count = refl;
  opened = refl;
  good = refl;
  sized = ap (λ t. length (text_of t)) (free 0);
  files =
      open_append-FilesHold base (backups max_files) fs ([], []) (ap text_of (free 0))
        (λ i l. free (suc i));
}

-- On a directory without their files, with the same limits and at least one backup, and where every
-- file can be opened and written, the two file sinks leave the same current file and backups.
pub write_batch-write_all :
    (c : StaticFileSinkConfig) (fs : Files) (msgs : List (List ℕ)) (i : ℕ)
    → no_name c.filename ≡ false
    → ((j : ℕ) → fs (file_name c.filename j) ≡ none)
    → length (lines_text (newest_first msgs [])) < size_mod
    → 0 < c.max_files
    → i ≤ c.max_files
    → (r : FileSinkType × Files) × (write_all
          (newest_first msgs [])
          (new_configured true c fs).0
          (new_configured true c fs).1
        ≡ some r)
      × (r.1 (file_name c.filename i)
          ≡ (write_batch
                (served msgs)
                (limited c.filename c.max_size c.max_files fs).0
                (limited c.filename c.max_size c.max_files fs).1).1
              (file_name c.filename i))
write_batch-write_all c fs msgs i named free fits some_files l =
    let made = new_configured-empty c fs named free in
    let r = write_all-Holds c _ _ (newest_first msgs []) ([], []) made (omega (arith, fits)) in
    let start = limited-StreamHolds c.filename c.max_size c.max_files fs free in
    let streamed =
      write_batch-StreamHolds c.filename c.max_size c.max_files _ _ msgs [] ([], []) start
        (omega (arith, fits)) in
    (r.0, r.1, r.2.files i l ∙ sym (streamed.files i (ground arith)))

write-closed :
    (opens takes : Bool) (m : List ℕ) (s : FileSink) (fs : Files)
    → s.is_open ≡ false
    → write opens takes m s fs ≡ (record s { has_error = true; last_error = file_not_open }, fs)
unfolding write
write-closed opens takes m s fs e =
    let r = rotate_if_full opens (length m) s fs in
    ap
      (λ b.
        if b
        then put_line takes m r.0 r.1
        else (record s { has_error = true; last_error = file_not_open }, fs))
      e

write_batch-closed :
    (msgs : List (Bool × Bool × List ℕ)) (s : FileSink) (fs : Files)
    → s.is_open ≡ false
    → s.has_error ≡ true
    → ((write_batch msgs s fs).1 ≡ fs)
      × ((write_batch msgs s fs).0.is_open ≡ false)
      × ((write_batch msgs s fs).0.has_error ≡ true)
unfolding write_batch
write_batch-closed [] s fs closed error = (refl, closed, error)
write_batch-closed ((opens, takes, m) ∷ msgs) s fs closed error =
    rw (write_batch, write-closed opens takes m s fs closed)
      (write_batch-closed msgs (record s { has_error = true; last_error = file_not_open }) fs closed
        refl)

-- Once the file cannot be opened again after a rotation, the message and all later ones are lost,
-- whatever the later answers: the files stay as the rotation left them, and the sink stays closed
-- and reports an error.
pub write_batch-lost :
    (takes : Bool) (m : List ℕ) (msgs : List (Bool × Bool × List ℕ)) (s : FileSink) (fs : Files)
    → s.is_open ≡ true
    → is_full (length m) s ≡ true
    → ((write_batch ((false, takes, m) ∷ msgs) s fs).1 ≡ make_backups s.filename s.max_files fs)
      × ((write_batch ((false, takes, m) ∷ msgs) s fs).0.is_open ≡ false)
      × ((write_batch ((false, takes, m) ∷ msgs) s fs).0.has_error ≡ true)
unfolding write_batch rotate_file open_file put_line
write_batch-lost takes m msgs s fs opened full =
    let r = rotate_file false s fs in
    let p = put_line takes m r.0 r.1 in
    rw
      (
        write_batch,
        write-opened false takes m s fs opened,
        rotate_if_full-eq false (length m) s fs true full,
      )
      (write_batch-closed msgs p.0 p.1 refl refl)
