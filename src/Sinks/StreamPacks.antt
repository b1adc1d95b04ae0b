-- ===== src/Sinks/StreamPacks.antt =====
-- `FileSink` packs the messages in its files (include/oneplog/sinks/sink.hpp).
use oneplog.Prelude.{
  ℕ, zero, suc, ◌+◌, ◌≤◌, ◌<◌, ◌≡◌, refl, ◌∙◌, sym, ap, Bool, true, false, ◌&&◌, none, some, List,
  [], ◌∷◌, ◌++◌, if◌then◌else◌, ltb, ◌==◌, length, Bool-cases, inl, inr, length-append, arith,
}
use oneplog.RingBuffer.State.{size_mod, add_size}
use oneplog.Sinks.Files.{Files, set_file, open_append, rename}
use oneplog.Sinks.Backups.{file_name, set_file-file_name}
use oneplog.Sinks.Pack.{
  Packed, FilesHold, lines_text, add, pack, pack-length, append_text-FilesHold, rotated-FilesHold,
}
use oneplog.Sinks.Static as Static
use oneplog.Sinks.StaticPacks.{make_backups-file_name, make_backups-current}
use oneplog.Sinks.Stream.{
  FileSink, make_backups, open_file, rotate_file, rotate_if_full, put_line, write, write_batch,
  file_not_open,
}

-- A current file that is there goes to the first backup, even where none are asked for.
abbrev pub backups : ℕ → ℕ
backups max_files = if ltb 0 max_files then max_files else 1

make_backups-same :
    (base : List ℕ) (n : ℕ) (fs : Files)
    → 0 < n
    → make_backups base n fs ≡ Static.make_backups base n fs
unfolding make_backups Static.make_backups
make_backups-same base n fs h =
    let kept : ltb 0 n ≡ true = ground arith in rw (make_backups, Static.make_backups, kept) refl

make_backups-zero :
    (base text : List ℕ) (fs : Files) (j : ℕ)
    → fs base ≡ some text
    → make_backups base 0 fs (file_name base j)
      ≡ (if j == 0 then none else if j == 1 then fs base else fs (file_name base j))
unfolding make_backups rename file_name
make_backups-zero base text fs j now =
    rw (make_backups, rename, now)
      (set_file-file_name base 1 j (some text) (set_file base none fs)
        ∙ ground (arith, set_file-file_name base 0 j none fs))

make_backups-one_on :
    (base text : List ℕ) (n j : ℕ) (fs : Files)
    → fs base ≡ some text
    → j < backups n
    → make_backups base n fs (file_name base (suc j)) ≡ fs (file_name base j)
unfolding file_name
make_backups-one_on base text zero zero fs now l =
    make_backups-zero base text fs 1 now ∙ ground arith
make_backups-one_on base text zero (suc j) fs now l = absurd (omega (arith, l))
make_backups-one_on base text (suc n) j fs now l =
    ap (λ b. b (file_name base (suc j))) (make_backups-same base (suc n) fs (omega arith))
    ∙ make_backups-file_name base (suc n) j fs (ground arith)

make_backups-gone :
    (base text : List ℕ) (n : ℕ) (fs : Files)
    → fs base ≡ some text
    → make_backups base n fs base ≡ none
unfolding file_name
make_backups-gone base text zero fs now = make_backups-zero base text fs 0 now ∙ ground arith
make_backups-gone base text (suc n) fs now =
    ap (λ b. b base) (make_backups-same base (suc n) fs (omega arith))
    ∙ make_backups-current base (suc n) fs (omega arith)

-- The state of an open sink with files that hold what is packed.
pub record StreamHolds (base : List ℕ) (max_size max_files : ℕ) (s : FileSink) (fs : Files)
    (p : Packed) : Type 0 where
  pub same_name : s.filename ≡ base
  pub same_size : s.max_size ≡ max_size
  pub same_count : s.max_files ≡ max_files
  pub opened : s.is_open ≡ true
  pub good : s.failed ≡ false
  pub sized : s.current_size ≡ length (lines_text p.0)
  pub files : FilesHold base (backups max_files) fs p

pub write-opened :
    (opens takes : Bool) (m : List ℕ) (s : FileSink) (fs : Files)
    → s.is_open ≡ true
    → write opens takes m s fs
      ≡ put_line takes m
          (rotate_if_full opens (length m) s fs).0
          (rotate_if_full opens (length m) s fs).1
unfolding write
write-opened opens takes m s fs e =
    let r = rotate_if_full opens (length m) s fs in
    ap
      (λ b.
        if b
        then put_line takes m r.0 r.1
        else (record s { has_error = true; last_error = file_not_open }, fs))
      e

abbrev pub is_full : ℕ → FileSink → Bool
is_full n s = ltb 0 s.max_size && ltb s.max_size (add_size s.current_size n)

pub rotate_if_full-eq :
    (opens : Bool) (n : ℕ) (s : FileSink) (fs : Files) (b : Bool)
    → is_full n s ≡ b
    → rotate_if_full opens n s fs ≡ (if b then rotate_file opens s fs else (s, fs))
unfolding rotate_if_full
rotate_if_full-eq opens n s fs b e = ap (λ b. if b then rotate_file opens s fs else (s, fs)) e

module _ (base : List ℕ) (max_size max_files : ℕ) where
  rotate_file-StreamHolds :
      (s : FileSink) (fs : Files) (p : Packed)
      → StreamHolds base max_size max_files s fs p
      → StreamHolds base max_size max_files
          (rotate_file true s fs).0
          (rotate_file true s fs).1
          ([], p.0 ∷ p.1)
  unfolding rotate_file open_file open_append file_name
  rotate_file-StreamHolds s fs p h =
      let now : fs base ≡ some (lines_text p.0) = h.files 0 (omega arith) in
      let backed = make_backups base max_files fs in
      let gone = make_backups-gone base (lines_text p.0) max_files fs now in
      record {
        same_name = h.same_name;
        same_size = h.same_size;
        same_count = h.same_count;
        opened = refl;
        good = refl;
        sized = rw (h.same_name, h.same_count, gone) refl;
        files =
            rw (h.same_name, h.same_count, gone)
              (rotated-FilesHold base (backups max_files) fs backed p h.files
                (λ j l. make_backups-one_on base (lines_text p.0) max_files j fs now l));
      }

  put_line-StreamHolds :
      (s : FileSink) (fs : Files) (m : List ℕ) (p : Packed)
      → StreamHolds base max_size max_files s fs p
      → length (lines_text p.0) + (length m + 1) < size_mod
      → StreamHolds base max_size max_files
          (put_line true m s fs).0
          (put_line true m s fs).1
          (m ∷ p.0, p.1)
  unfolding put_line
  put_line-StreamHolds s fs m p h fits = record {
    same_name = h.same_name;
    same_size = h.same_size;
    same_count = h.same_count;
    opened = h.opened;
    good = rw h.good refl;
    sized =
        let grown = length-append (lines_text p.0) (m ++ (10 ∷ [])) in
        let line = length-append m (10 ∷ []) in let now = h.sized in ground arith;
    files =
        rw (h.good, h.same_name) (append_text-FilesHold base (backups max_files) fs m p h.files);
  }

  full-StreamHolds :
      (s : FileSink) (fs : Files) (m : List ℕ) (p : Packed)
      → StreamHolds base max_size max_files s fs p
      → length (lines_text p.0) + (length m + 1) < size_mod
      → (ltb 0 max_size && ltb max_size (length (lines_text p.0) + length m)) ≡ is_full (length m) s
  full-StreamHolds s fs m p h fits =
      let small : add_size (length (lines_text p.0)) (length m)
          ≡ length (lines_text p.0) + length m =
        omega arith in
      rw (h.same_size, h.sized, small) refl

  write-StreamHolds :
      (s : FileSink) (fs : Files) (m : List ℕ) (p : Packed)
      → StreamHolds base max_size max_files s fs p
      → length (lines_text p.0) + (length m + 1) < size_mod
      → StreamHolds base max_size max_files
          (write true true m s fs).0
          (write true true m s fs).1
          (add max_size m p)
  write-StreamHolds s fs m p h fits =
      let same_test = full-StreamHolds s fs m p h fits in
      let opened = write-opened true true m s fs h.opened in
      elim (Bool-cases (ltb 0 max_size && ltb max_size (length (lines_text p.0) + length m))) [
        | inl over ↦
            let r = rotate_file true s fs in
            let rotated = rotate_file-StreamHolds s fs p h in
            rw (opened, rotate_if_full-eq true (length m) s fs true (sym same_test ∙ over), over)
              (put_line-StreamHolds r.0 r.1 m ([], p.0 ∷ p.1) rotated (omega (arith, fits)))
        | inr within ↦
            rw
              (
                opened,
                rotate_if_full-eq true (length m) s fs false (sym same_test ∙ within),
                within,
              )
              (put_line-StreamHolds s fs m p h fits)
      ]

-- A batch whose every message finds a stream that opens and takes it.
abbrev pub served : List (List ℕ) → List (Bool × Bool × List ℕ)
served [] = []
served (m ∷ ms) = (true, true, m) ∷ served ms

-- The same messages, the last one first, before others.
abbrev pub newest_first : List (List ℕ) → List (List ℕ) → List (List ℕ)
newest_first [] acc = acc
newest_first (m ∷ ms) acc = newest_first ms (m ∷ acc)

newest_first-length :
    (ms acc : List (List ℕ)) → length (lines_text acc) ≤ length (lines_text (newest_first ms acc))
newest_first-length [] acc = omega arith
newest_first-length (m ∷ ms) acc =
    let ih = newest_first-length ms (m ∷ acc) in
    let grown = length-append (lines_text acc) (m ++ (10 ∷ [])) in omega (arith, ih, grown)

-- Where the stream always opens and takes what is written, a batch leaves the sink open and good,
-- and the current file and its backups, at least one, hold the messages packed.
pub write_batch-StreamHolds :
    (base : List ℕ) (max_size max_files : ℕ) (s : FileSink) (fs : Files)
    (msgs before : List (List ℕ)) (p : Packed)
    → StreamHolds base max_size max_files s fs (pack max_size before p)
    → length (lines_text p.0) + length (lines_text (newest_first msgs before)) < size_mod
    → StreamHolds base max_size max_files
        (write_batch (served msgs) s fs).0
        (write_batch (served msgs) s fs).1
        (pack max_size (newest_first msgs before) p)
unfolding write_batch
write_batch-StreamHolds base max_size max_files s fs [] before p h fits = h
write_batch-StreamHolds base max_size max_files s fs (m ∷ ms) before p h fits =
    let r = write true true m s fs in
    let top = pack-length max_size before p in
    let part = newest_first-length ms (m ∷ before) in
    let grown = length-append (lines_text before) (m ++ (10 ∷ [])) in
    let line = length-append m (10 ∷ []) in
    write_batch-StreamHolds base max_size max_files r.0 r.1 ms (m ∷ before) p
      (write-StreamHolds base max_size max_files s fs m (pack max_size before p) h
        (omega (arith, top, part, grown, line, fits)))
      fits
