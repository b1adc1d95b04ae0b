-- ===== src/Sinks/Pack.antt =====
-- Messages packed in files: what a sink that rotates its files is meant to leave
-- (include/oneplog/internal/static_formats.hpp and include/oneplog/sinks/sink.hpp).
use oneplog.Prelude.{
  ℕ, zero, suc, ◌+◌, ◌≤◌, ◌<◌, ◌≡◌, refl, ◌∙◌, ap, ◌&&◌, Option, none, some, List, [], ◌∷◌, ◌++◌,
  if◌then◌else◌, ltb, length, Bool-cases, inl, inr, length-append, arith,
}
use oneplog.Sinks.Files.{Files, text_of, set_file, open_append, append_text}
use oneplog.Sinks.Backups.{file_name, set_file-file_name}

-- The messages of one file, the latest first, as its text.
abbrev pub lines_text : List (List ℕ) → List ℕ
lines_text [] = []
lines_text (m ∷ ms) = lines_text ms ++ (m ++ (10 ∷ []))

-- The current file, and the older ones, the latest first.
abbrev pub Packed : Type 0
Packed = List (List ℕ) × List (List (List ℕ))

-- One message more: in the current file, or, if that would grow beyond the maximal size, in a new one.
abbrev pub add : ℕ → List ℕ → Packed → Packed
add max_size m (top, older) =
    if ltb 0 max_size && ltb max_size (length (lines_text top) + length m)
    then (m ∷ [], top ∷ older)
    else (m ∷ top, older)

-- Messages, the first written at the end.
abbrev pub pack : ℕ → List (List ℕ) → Packed → Packed
pack max_size [] p = p
pack max_size (m ∷ ms) p = add max_size m (pack max_size ms p)

abbrev pub older_text : List (List (List ℕ)) → ℕ → Option (List ℕ)
older_text [] i = none
older_text (f ∷ fs) zero = some (lines_text f)
older_text (f ∷ fs) (suc i) = older_text fs i

abbrev pub held : Packed → ℕ → Option (List ℕ)
held (top, older) zero = some (lines_text top)
held (top, older) (suc i) = older_text older i

abbrev pub concat : List (List (List ℕ)) → List (List ℕ)
concat [] = []
concat (f ∷ fs) = f ++ concat fs

abbrev pub all_messages : Packed → List (List ℕ)
all_messages (top, older) = top ++ concat older

-- Nothing is lost, doubled or moved in packing.
pub pack-all_messages :
    (max_size : ℕ) (msgs : List (List ℕ)) (p : Packed)
    → all_messages (pack max_size msgs p) ≡ msgs ++ all_messages p
pack-all_messages max_size [] p = refl
pack-all_messages max_size (m ∷ ms) p = let ih = pack-all_messages max_size ms p in ground arith

-- The current file is not longer than all that was written to it.
pub pack-length :
    (max_size : ℕ) (msgs : List (List ℕ)) (p : Packed)
    → length (lines_text (pack max_size msgs p).0)
      ≤ length (lines_text p.0) + length (lines_text msgs)
pack-length max_size [] p = omega arith
pack-length max_size (m ∷ ms) p =
    let q = pack max_size ms p in
    let ih = pack-length max_size ms p in
    let grown = length-append (lines_text q.0) (m ++ (10 ∷ [])) in
    let more = length-append (lines_text ms) (m ++ (10 ∷ [])) in
    elim (Bool-cases (ltb 0 max_size && ltb max_size (length (lines_text q.0) + length m))) [
      | inl over ↦ rw over (omega (arith, ih, more))
      | inr within ↦ rw within (omega (arith, ih, grown, more))
    ]

-- What the files of a family hold, down to the `n`-th backup.
abbrev pub FilesHold : List ℕ → ℕ → Files → Packed → Type 0
FilesHold base n fs p = (i : ℕ) → i ≤ n → fs (file_name base i) ≡ held p i

pub append_text-FilesHold :
    (base : List ℕ) (n : ℕ) (fs : Files) (m : List ℕ) (p : Packed)
    → FilesHold base n fs p
    → FilesHold base n (append_text base (m ++ (10 ∷ [])) fs) (m ∷ p.0, p.1)
unfolding append_text file_name
append_text-FilesHold base n fs m (top, older) hold zero h =
    let now : fs base ≡ some (lines_text top) = hold 0 h in
    rw (append_text, now) (set_file-file_name base 0 0 _ fs)
append_text-FilesHold base n fs m (top, older) hold (suc i) h =
    set_file-file_name base 0 (suc i) (some (text_of (fs base) ++ (m ++ (10 ∷ [])))) fs
    ∙ ground (arith, hold (suc i) h)

older_text-held : (p : Packed) (i : ℕ) → older_text (p.0 ∷ p.1) i ≡ held p i
older_text-held (top, older) zero = refl
older_text-held (top, older) (suc i) = refl

-- The files one further, the oldest left out, and an empty one.
pub rotated-FilesHold :
    (base : List ℕ) (n : ℕ) (fs backed : Files) (p : Packed)
    → FilesHold base n fs p
    → ((j : ℕ) → j < n → backed (file_name base (suc j)) ≡ fs (file_name base j))
    → FilesHold base n (set_file base (some []) backed) ([], p.0 ∷ p.1)
unfolding file_name
rotated-FilesHold base n fs backed (top, older) hold shift zero h =
    set_file-file_name base 0 0 (some []) backed
rotated-FilesHold base n fs backed (top, older) hold shift (suc i) h =
    set_file-file_name base 0 (suc i) (some []) backed
    ∙ ground (arith, shift i (omega arith), hold i (omega arith), older_text-held (top, older) i)

-- A file opened for appending holds what it held, or nothing if there was none.
pub open_append-FilesHold :
    (base : List ℕ) (n : ℕ) (fs : Files) (p : Packed)
    → text_of (fs base) ≡ lines_text p.0
    → ((i : ℕ) → i < n → fs (file_name base (suc i)) ≡ held p (suc i))
    → FilesHold base n (open_append base fs) p
unfolding open_append file_name
open_append-FilesHold base n fs (top, older) now backups zero h =
    set_file-file_name base 0 0 _ fs ∙ ap some now
open_append-FilesHold base n fs (top, older) now backups (suc i) h =
    set_file-file_name base 0 (suc i) (some (text_of (fs base))) fs
    ∙ ground (arith, backups i (omega arith))

-- Files that are missing, and a current file that is emptied.
pub emptied-FilesHold :
    (base : List ℕ) (n : ℕ) (backed : Files)
    → ((j : ℕ) → j < n → backed (file_name base (suc j)) ≡ none)
    → FilesHold base n (set_file base (some []) backed) ([], [])
unfolding file_name
emptied-FilesHold base n backed free zero h = set_file-file_name base 0 0 (some []) backed
emptied-FilesHold base n backed free (suc i) h =
    set_file-file_name base 0 (suc i) (some []) backed ∙ ground (arith, free i (omega arith))
