-- ===== src/Snapshot/Serialize.antt =====
-- `SerializeTo`, `Deserialize` and `operator==`.
use oneplog.Prelude.{
  ℕ, zero, suc, ◌+◌, ◌<◌, ◌^◌, ◌≡◌, refl, ◌∙◌, ap, ap₂, sym, true, List, ◌++◌, length, arith, ltb,
  if◌then◌else◌,
}
use oneplog.Snapshot.Bytes.{
  read, write, le_bytes, le_value, length-read, read-write, read-append, read_split,
  le_value-le_bytes,
}
use oneplog.Snapshot.Capture.{Snapshot, Arg, default_buffer_size, new_snapshot}
use oneplog.Snapshot.Convert.{serialize_to, deserialize, snapshot_eq, same_bytes}
use oneplog.Snapshot.Layout.{encode_all, Holds, length-le-encode_all}

-- A shorter run of what was read.
read-write_prefix :
    (f g : ℕ → ℕ) (o p n m : ℕ) → read (write g o (read f p (n + m))) o n ≡ read f p n
read-write_prefix f g o p n m =
    let whole = read-write g o (read f p (n + m)) in
    let h = read-append f p n m in
    let parts : read (write g o (read f p (n + m))) o (length (read f p n ++ read f (p + n) m))
        ≡ read f p n ++ read f (p + n) m =
      ap (λ l. read (write g o (read f p (n + m))) o (length l)) (sym h) ∙ whole ∙ h in
    ap (read (write g o (read f p (n + m))) o) (sym (length-read f p n))
    ∙ (read_split _ o (read f p n) (read f (p + n) m) parts).0

same_bytes-read : (f g : ℕ → ℕ) (o n : ℕ) → read f o n ≡ read g o n → same_bytes f g o n ≡ true
unfolding read same_bytes
same_bytes-read f g o zero h = refl
same_bytes-read f g o (suc n) h =
    let head_h : f o ≡ g o = cc in
    let tail_h : read f (o + 1) n ≡ read g (o + 1) n = cc in
    ground (arith, head_h, same_bytes-read f g (o + 1) n tail_h)

read-write_all : (f g : ℕ → ℕ) (o p n : ℕ) → read (write g o (read f p n)) o n ≡ read f p n
read-write_all f g o p n =
    ap (read (write g o (read f p n)) o) (sym (length-read f p n)) ∙ read-write g o (read f p n)

-- A snapshot with the same used bytes.
same_used :
    (s t : Snapshot) (args : List Arg)
    → Holds s args
    → t.offset ≡ s.offset
    → t.arg_count ≡ s.arg_count
    → read t.buffer 0 s.offset ≡ read s.buffer 0 s.offset
    → (snapshot_eq s t ≡ true) × Holds t args
unfolding snapshot_eq
same_used s t args h o c r =
    let n = length (encode_all args) in
    let eq_bytes = same_bytes-read s.buffer t.buffer 0 s.offset (sym r) in
    let used : read t.buffer 0 (2 + n) ≡ read s.buffer 0 (2 + n) = rw h.offset_eq at r in
    let both = read-append s.buffer 0 2 n in
    let parts : read t.buffer 0 (length (read s.buffer 0 2 ++ read s.buffer 2 n))
        ≡ read s.buffer 0 2 ++ read s.buffer 2 n =
      ap (λ l. read t.buffer 0 (length l)) (sym both)
      ∙ ap (read t.buffer 0) (length-read s.buffer 0 (2 + n))
      ∙ used
      ∙ both in
    let split = read_split t.buffer 0 (read s.buffer 0 2) (read s.buffer 2 n) parts in
    let first : read t.buffer 0 2 ≡ read s.buffer 0 2 =
      ap (read t.buffer 0) (sym (length-read s.buffer 0 2)) ∙ split.0 in
    let rest : read t.buffer 2 n ≡ read s.buffer 2 n =
      ap₂ (read t.buffer) (omega (arith, length-read s.buffer 0 2)) (sym (length-read s.buffer 2 n))
      ∙ split.1 in
    (
      ground (arith, eq_bytes),
      record {
        offset_eq = o ∙ h.offset_eq;
        bytes = rest ∙ h.bytes;
        count = c ∙ h.count;
        header = first ∙ h.header;
        fits = omega (arith, h.fits);
      },
    )

-- `Deserialize` of what `SerializeTo` wrote, anywhere in memory and whatever the bytes of both
-- buffers that are not in use, is equal to the snapshot by `operator==`, and holds its arguments.
pub deserialize-serialize_to :
    (junk dest : ℕ → ℕ) (at : ℕ) (s : Snapshot) (args : List Arg)
    → Holds s args
    → let copy = deserialize junk (serialize_to s dest at) at s.offset in
      (snapshot_eq s copy ≡ true) × Holds copy args
unfolding deserialize serialize_to snapshot_eq
deserialize-serialize_to junk dest at s args h =
    let src = write dest at (read s.buffer 0 s.offset) in
    let size : (if ltb s.offset default_buffer_size then s.offset else default_buffer_size)
        ≡ s.offset =
      ground (arith, h.fits) in
    let n = length (encode_all args) in
    let small : length args < 256 ^ 2 =
      omega (arith, length-le-encode_all args, h.offset_eq, h.fits) in
    let header : read src at 2 ≡ le_bytes 2 (length args) =
      ap (λ k. read (write dest at (read s.buffer 0 k)) at 2) h.offset_eq
      ∙ read-write_prefix s.buffer dest at 0 2 n
      ∙ h.header in
    let count : le_value (read src at 2) ≡ s.arg_count =
      ap le_value header ∙ le_value-le_bytes 2 (length args) small ∙ sym h.count in
    let used : read (write (new_snapshot junk).buffer 0 (read src at s.offset)) 0 s.offset
        ≡ read s.buffer 0 s.offset =
      read-write_all src (new_snapshot junk).buffer 0 at s.offset
      ∙ read-write_all s.buffer dest at 0 s.offset in
    same_used s (deserialize junk src at s.offset) args h size count
      (ap (λ k. read (write (new_snapshot junk).buffer 0 (read src at k)) 0 s.offset) size ∙ used)
