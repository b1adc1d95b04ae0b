-- ===== src/Sinks/StaticPacks.antt =====
-- `FileSinkType` packs the messages in its files
-- (include/oneplog/internal/static_formats.hpp).
use oneplog.Prelude.{
  ℕ, zero, suc, ◌+◌, ◌-◌, ◌<◌, ◌≡◌, refl, ◌∙◌, true, ◌&&◌, Option, none, some, List, [], ◌∷◌, ◌++◌,
  if◌then◌else◌, ltb, leb, ◌==◌, length, Bool-cases, inl, inr, length-append, arith,
}
use oneplog.RingBuffer.State.{size_mod, add_size}
use oneplog.Sinks.Files.{Files, remove, open_write, append_text, shift_backups}
use oneplog.Sinks.Backups.{file_name, remove-file_name, rename-file_name, shift_backups-file_name}
use oneplog.Sinks.Pack.{
  Packed, FilesHold, lines_text, add, pack, append_text-FilesHold, rotated-FilesHold, pack-length,
}
use oneplog.Sinks.Static.{
  StaticFileSinkConfig, FileSinkType, make_backups, rotate, exceeds, check_rotation, write,
}

-- Each file comes one further, and the oldest one goes.
make_backups-at :
    (base : List ℕ) (n j : ℕ) (fs : Files)
    → make_backups base (suc n) fs (file_name base j) ≡ (
        if j == 0
        then none
        else if leb j (suc n)
        then fs (file_name base (j - 1))
        else fs (file_name base j))
unfolding make_backups file_name
make_backups-at base n j fs =
    let gone = remove (file_name base (suc n)) fs in
    let shifted = shift_backups base n gone in
    let removed = λ (i : ℕ). remove-file_name base (suc n) i fs in
    let shift = λ (i : ℕ). shift_backups-file_name base n i gone (removed (suc n) ∙ ground arith) in
    let renamed = rename-file_name base 0 1 j shifted (omega arith) (shift 1 ∙ ground arith) in
    let less : suc n - 1 ≡ n = omega arith in
    let kept : ltb 0 (suc n) ≡ true = ground arith in
    rw (make_backups, less, kept)
      (renamed ∙ ground (arith, shift 0, shift j, removed 0, removed j, removed (j - 1)))

pub make_backups-file_name :
    (base : List ℕ) (n j : ℕ) (fs : Files)
    → j < n
    → make_backups base n fs (file_name base (suc j)) ≡ fs (file_name base j)
make_backups-file_name base zero j fs h = absurd (omega arith)
make_backups-file_name base (suc n) j fs h = make_backups-at base n (suc j) fs ∙ ground arith

pub make_backups-current :
    (base : List ℕ) (n : ℕ) (fs : Files) → 0 < n → make_backups base n fs (file_name base 0) ≡ none
make_backups-current base zero fs h = absurd (omega arith)
make_backups-current base (suc n) fs h = make_backups-at base n 0 fs ∙ ground arith

-- The state of an open sink with files that hold what is packed.
pub record Holds (c : StaticFileSinkConfig) (s : FileSinkType) (fs : Files) (p : Packed)
    : Type 0 where
  pub same_name : s.filename ≡ c.filename
  pub same_size : s.max_size ≡ c.max_size
  pub same_count : s.max_files ≡ c.max_files
  pub opened : s.is_open ≡ true
  pub sized : s.current_size ≡ length (lines_text p.0)
  pub files : FilesHold c.filename c.max_files fs p

rotate-Holds :
    (c : StaticFileSinkConfig) (s : FileSinkType) (fs : Files) (p : Packed)
    → Holds c s fs p
    → Holds c (rotate true s fs).0 (rotate true s fs).1 ([], p.0 ∷ p.1)
unfolding rotate open_write
rotate-Holds c s fs p h = record {
  same_name = h.same_name;
  same_size = h.same_size;
  same_count = h.same_count;
  opened = refl;
  sized = refl;
  files =
      rw (h.same_name, h.same_count)
        (rotated-FilesHold c.filename c.max_files fs (make_backups c.filename c.max_files fs) p
          h.files (λ j l. make_backups-file_name c.filename c.max_files j fs l));
}

-- The state after a line is appended.
abbrev lengthened : List ℕ → FileSinkType → FileSinkType
lengthened m s = record s { current_size = add_size s.current_size (add_size (length m) 1) }

append-Holds :
    (c : StaticFileSinkConfig) (s : FileSinkType) (fs : Files) (m : List ℕ) (p : Packed)
    → Holds c s fs p
    → length (lines_text p.0) + (length m + 1) < size_mod
    → Holds c (lengthened m s) (append_text s.filename (m ++ (10 ∷ [])) fs) (m ∷ p.0, p.1)
append-Holds c s fs m p h fits = record {
  same_name = h.same_name;
  same_size = h.same_size;
  same_count = h.same_count;
  opened = h.opened;
  sized =
      let grown = length-append (lines_text p.0) (m ++ (10 ∷ [])) in
      let line = length-append m (10 ∷ []) in let now = h.sized in ground arith;
  files = rw h.same_name (append_text-FilesHold c.filename c.max_files fs m p h.files);
}

-- The sink tests for a full file as packing does.
exceeds-Holds :
    (c : StaticFileSinkConfig) (s : FileSinkType) (fs : Files) (m : List ℕ) (p : Packed)
    → Holds c s fs p
    → length (lines_text p.0) + (length m + 1) < size_mod
    → (ltb 0 c.max_size && ltb c.max_size (length (lines_text p.0) + length m))
      ≡ exceeds s.max_size s.current_size (length m)
unfolding exceeds
exceeds-Holds c s fs m p h fits =
    let small : add_size (length (lines_text p.0)) (length m) ≡ length (lines_text p.0) + length m =
      omega arith in
    rw (h.same_size, h.sized, small) refl

-- A write to an open sink appends a line, after a rotation where the line would not fit.
pub write-Holds :
    (c : StaticFileSinkConfig) (s : FileSinkType) (fs : Files) (m : List ℕ) (p : Packed)
    → Holds c s fs p
    → length (lines_text p.0) + (length m + 1) < size_mod
    → (r : FileSinkType × Files) × (write true m s fs ≡ some r)
      × Holds c r.0 r.1 (add c.max_size m p)
unfolding write check_rotation rotate
write-Holds c s fs m p h fits =
    let same_test = exceeds-Holds c s fs m p h fits in
    elim (Bool-cases (exceeds s.max_size s.current_size (length m))) [
      | inl over ↦
          let r = rotate true s fs in
          let rotated = rotate-Holds c s fs p h in
          (
            (lengthened m r.0, append_text r.0.filename (m ++ (10 ∷ [])) r.1),
            rw (write, check_rotation, h.opened, over) refl,
            rw (same_test ∙ over)
                (append-Holds c r.0 r.1 m ([], p.0 ∷ p.1) rotated (omega (arith, fits))),
          )
      | inr within ↦ (
        (lengthened m s, append_text s.filename (m ++ (10 ∷ [])) fs),
        rw (write, check_rotation, h.opened, within) refl,
        rw (same_test ∙ within) (append-Holds c s fs m p h fits),
      )
    ]

-- Writes one after another, the last one at the head of the list.
abbrev pub write_all : List (List ℕ) → FileSinkType → Files → Option (FileSinkType × Files)
write_all [] s fs = some (s, fs)
write_all (m ∷ ms) s fs = elim (write_all ms s fs) [ none ↦ none | some r ↦ write true m r.0 r.1 ]

-- Where every file can be opened, writing messages leaves the sink open, and the current file and
-- its backups hold the messages packed: each file is filled before the next is begun, the current
-- file is the latest, and only files beyond the number of backups are gone.
pub write_all-Holds :
    (c : StaticFileSinkConfig) (s : FileSinkType) (fs : Files) (msgs : List (List ℕ)) (p : Packed)
    → Holds c s fs p
    → length (lines_text p.0) + length (lines_text msgs) < size_mod
    → (r : FileSinkType × Files) × (write_all msgs s fs ≡ some r)
      × Holds c r.0 r.1 (pack c.max_size msgs p)
write_all-Holds c s fs [] p h fits = ((s, fs), refl, h)
write_all-Holds c s fs (m ∷ ms) p h fits =
    let grown = length-append (lines_text ms) (m ++ (10 ∷ [])) in
    let line = length-append m (10 ∷ []) in
    let before = write_all-Holds c s fs ms p h (omega (arith, fits)) in
    let top = pack-length c.max_size ms p in
    let after =
      write-Holds c before.0.0 before.0.1 m (pack c.max_size ms p) before.2 (omega (arith, fits)) in
    (after.0, rw before.1 after.1, after.2)
