-- ===== src/Sinks/StaticFiles.antt =====
-- From the construction of a `FileSinkType` to what its files hold, and what happens where a file
-- cannot be opened (include/oneplog/internal/static_formats.hpp).
use oneplog.Prelude.{
  ℕ, suc, ◌≤◌, ◌<◌, ◌≡◌, refl, ◌∙◌, ap, Bool, true, false, not, ◌&&◌, none, some, List, [], ◌∷◌,
  append-nil, if◌then◌else◌, length, Bool-cases, inl, inr, arith, ◌↔◌,
}
use oneplog.RingBuffer.State.{size_mod}
use oneplog.Sinks.Files.{Files, text_of, open_append, open_write}
use oneplog.Sinks.Backups.{file_name}
use oneplog.Sinks.Pack.{
  Packed, FilesHold, lines_text, pack, pack-all_messages, rotated-FilesHold, open_append-FilesHold,
  emptied-FilesHold,
}
use oneplog.Sinks.Family.{family_text, family_text-all}
use oneplog.Sinks.Sizes.{IsBounded, held-IsBounded, pack-AllSmall}
use oneplog.Sinks.Static.{
  StaticFileSinkConfig, FileSinkType, new_configured, open_file, open_to_append, no_name, rotate,
  make_backups, exceeds, check_rotation, write,
}
use oneplog.Sinks.StaticPacks.{Holds, make_backups-file_name, write_all, write_all-Holds}

-- What the files hold once the sink is made: a new file if it rotates on opening.
abbrev pub opened_on : StaticFileSinkConfig → Packed → Packed
opened_on c p = if c.rotate_on_open then ([], p.0 ∷ p.1) else p

-- A sink made on files that hold packed messages goes on with them: it appends to the current
-- file, or, if it rotates on opening, makes that file a backup.
pub new_configured-Holds :
    (c : StaticFileSinkConfig) (fs : Files) (p : Packed)
    → no_name c.filename ≡ false
    → FilesHold c.filename c.max_files fs p
    → Holds c (new_configured true c fs).0 (new_configured true c fs).1 (opened_on c p)
unfolding new_configured open_file rotate open_to_append open_append open_write file_name
new_configured-Holds c fs p named hold = elim (Bool-cases c.rotate_on_open) [
  | inl rotates ↦
      rw (named, rotates)
        (record {
          same_name = refl;
          same_size = refl;
          same_count = refl;
          opened = refl;
          sized = refl;
          files =
              rotated-FilesHold c.filename c.max_files fs (make_backups c.filename c.max_files fs) p
                hold (λ j l. make_backups-file_name c.filename c.max_files j fs l);
        })
  | inr appends ↦
      rw (named, appends)
        (record {
          same_name = refl;
          same_size = refl;
          same_count = refl;
          opened = refl;
          sized = ap (λ t. length (text_of t)) (hold 0 (omega arith));
          files =
              open_append-FilesHold c.filename c.max_files fs p (ap text_of (hold 0 (omega arith)))
                (λ i l. hold (suc i) (omega arith));
        })
]

-- The same on a directory without the sink's files.
pub new_configured-empty :
    (c : StaticFileSinkConfig) (fs : Files)
    → no_name c.filename ≡ false
    → ((i : ℕ) → fs (file_name c.filename i) ≡ none)
    → Holds c (new_configured true c fs).0 (new_configured true c fs).1 ([], [])
unfolding new_configured open_file rotate open_to_append open_append open_write file_name
new_configured-empty c fs named free = elim (Bool-cases c.rotate_on_open) [
  | inl rotates ↦
      rw (named, rotates)
        (record {
          same_name = refl;
          same_size = refl;
          same_count = refl;
          opened = refl;
          sized = refl;
          files =
              emptied-FilesHold c.filename c.max_files (make_backups c.filename c.max_files fs)
                (λ j l. make_backups-file_name c.filename c.max_files j fs l ∙ free j);
        })
  | inr appends ↦
      rw (named, appends)
        (record {
          same_name = refl;
          same_size = refl;
          same_count = refl;
          opened = refl;
          sized = ap (λ t. length (text_of t)) (free 0);
          files =
              open_append-FilesHold c.filename c.max_files fs ([], []) (ap text_of (free 0))
                (λ i l. free (suc i));
        })
]

-- On a directory without the sink's files, and where every file can be opened, writing messages
-- loses none as long as they pack in the current file and the backups: the files together, the
-- oldest first, hold every message in order, a line each.
pub write_all-keeps :
    (c : StaticFileSinkConfig) (fs : Files) (msgs : List (List ℕ))
    → no_name c.filename ≡ false
    → ((i : ℕ) → fs (file_name c.filename i) ≡ none)
    → length (lines_text msgs) < size_mod
    → length (pack c.max_size msgs ([], [])).1 ≤ c.max_files
    → (r : FileSinkType × Files) × (write_all msgs
          (new_configured true c fs).0
          (new_configured true c fs).1
        ≡ some r)
      × (family_text c.filename c.max_files r.1 ≡ lines_text msgs)
write_all-keeps c fs msgs named free fits enough =
    let made = new_configured-empty c fs named free in
    let r = write_all-Holds c _ _ msgs ([], []) made (omega (arith, fits)) in
    let packed = pack c.max_size msgs ([], []) in
    (
      r.0,
      r.1,
      family_text-all c.filename c.max_files r.0.1 packed r.2.files enough
          ∙ ap lines_text (pack-all_messages c.max_size msgs ([], []) ∙ append-nil msgs),
    )

-- On such a directory, and with a maximal size, neither the current file nor a backup is longer than
-- that size and a newline, unless it holds one message only.
pub write_all-IsBounded :
    (c : StaticFileSinkConfig) (fs : Files) (msgs : List (List ℕ)) (i : ℕ)
    → no_name c.filename ≡ false
    → ((i : ℕ) → fs (file_name c.filename i) ≡ none)
    → length (lines_text msgs) < size_mod
    → 0 < c.max_size
    → i ≤ c.max_files
    → (r : FileSinkType × Files) × (write_all msgs
          (new_configured true c fs).0
          (new_configured true c fs).1
        ≡ some r)
      × IsBounded c.max_size (r.1 (file_name c.filename i))
write_all-IsBounded c fs msgs i named free fits positive l =
    let made = new_configured-empty c fs named free in
    let r = write_all-Holds c _ _ msgs ([], []) made (omega (arith, fits)) in
    (
      r.0,
      r.1,
      rw (r.2.files i l) (
          held-IsBounded c.max_size (pack c.max_size msgs ([], [])) i
            (pack-AllSmall c.max_size msgs ([], []) positive (ground arith) tt)),
    )

-- The write that a null file meets: exactly where the line does not fit and the new file cannot be
-- opened.
pub write-eq-none :
    (opens : Bool) (msg : List ℕ) (s : FileSinkType) (fs : Files)
    → (write opens msg s fs ≡ none)
      ↔ ((s.is_open && not opens && exceeds s.max_size s.current_size (length msg)) ≡ true)
unfolding write check_rotation rotate
write-eq-none opens msg s fs = ground arith
