-- ===== src/Snapshot/CaptureHolds.antt =====
-- `Capture` on a snapshot that holds arguments (include/oneplog/internal/binary_snapshot.hpp).
use oneplog.Prelude.{
  ℕ, ◌+◌, ◌%◌, ◌^◌, ◌≤◌, ◌<◌, ◌≡◌, refl, ◌∙◌, ap, ap₂, sym, Bool, true, false, if◌then◌else◌, List,
  [], ◌∷◌, ◌++◌, append-nil, append_assoc, length, length-append, leb, leb→le, subst, arith,
  Bool-cases, inl, inr,
}
use oneplog.Snapshot.Bytes.{
  read, write, le_bytes, length-le_bytes, read-write, read-write_before, read-write_after,
  read-append,
}
use oneplog.Snapshot.Capture.{
  Snapshot, Arg, default_buffer_size, put, count_arg, new_snapshot, remaining, capture_one, capture,
}
use oneplog.Snapshot.Layout.{encode, encode_all, encode_all-append, Holds, length-le-encode_all}
use oneplog.Snapshot.CaptureOne.{capture_one_lem}

pub new_snapshot-Holds : (junk : ℕ → ℕ) → Holds (new_snapshot junk) []
unfolding new_snapshot le_bytes read
new_snapshot-Holds junk = record {
  offset_eq = refl;
  bytes = refl;
  count = refl;
  header = read-write junk 0 (0 ∷ 0 ∷ []);
  fits = omega arith;
}

pub encode_all-snoc :
    (args : List Arg) (a : Arg) → encode_all (args ++ (a ∷ [])) ≡ encode_all args ++ encode a
encode_all-snoc args a =
    encode_all-append args (a ∷ []) ∙ ap (λ t. encode_all args ++ t) (append-nil (encode a))

pub length-snoc :
    (args : List Arg) (a : Arg)
    → length (encode_all (args ++ (a ∷ []))) ≡ length (encode_all args) + length (encode a)
length-snoc args a = ap length (encode_all-snoc args a) ∙ length-append (encode_all args) (encode a)

pub put-bytes :
    (s : Snapshot) (args : List Arg) (a : Arg)
    → s.offset ≡ 2 + length (encode_all args)
    → read s.buffer 2 (length (encode_all args)) ≡ encode_all args
    → read (write s.buffer s.offset (encode a)) 2 (length (encode_all (args ++ (a ∷ []))))
      ≡ encode_all (args ++ (a ∷ []))
put-bytes s args a at held =
    ap (read (write s.buffer s.offset (encode a)) 2) (length-snoc args a)
    ∙ read-append (write s.buffer s.offset (encode a)) 2 (length (encode_all args))
        (length (encode a))
    ∙ ap₂ ◌++◌
        (read-write_before s.buffer s.offset (encode a) 2 (length (encode_all args)) (omega arith)
          ∙ held)
        (ap (λ o. read (write s.buffer s.offset (encode a)) o (length (encode a))) (sym at)
          ∙ read-write s.buffer s.offset (encode a))
    ∙ sym (encode_all-snoc args a)

-- The bytes of one more argument, put behind those that a snapshot holds.
pub put-Holds :
    {s : Snapshot} {args : List Arg} (a : Arg)
    → Holds s args
    → s.offset + length (encode a) ≤ default_buffer_size
    → Holds (count_arg (put s (encode a))) (args ++ (a ∷ []))
put-Holds {s} {args} a h fit = record {
  offset_eq = omega (arith, h.offset_eq, length-snoc args a);
  bytes =
      read-write_after (write s.buffer s.offset (encode a)) 0 (le_bytes 2 n) 2
        (length (encode_all (args ++ (a ∷ [])))) (omega (arith, length-le_bytes 2 n))
      ∙ put-bytes s args a h.offset_eq h.bytes;
  count = counted;
  header =
      ap (read (write (write s.buffer s.offset (encode a)) 0 (le_bytes 2 n)) 0)
        (sym (length-le_bytes 2 n))
      ∙ read-write (write s.buffer s.offset (encode a)) 0 (le_bytes 2 n)
      ∙ ap (le_bytes 2) counted;
  fits = fit;
}
  where
    n : ℕ
    n = (s.arg_count + 1) % 2 ^ 16

    counted : (s.arg_count + 1) % 2 ^ 16 ≡ length (args ++ (a ∷ []))
    counted = omega (
      arith,
      h.count,
      length-append args (a ∷ []),
      length-le-encode_all args,
      h.offset_eq,
      h.fits,
    )

capture_one-fits :
    (a : Arg) (s : Snapshot)
    → s.offset + length (encode a) ≤ default_buffer_size
    → capture_one a s ≡ (true, count_arg (put s (encode a)))
unfolding remaining
capture_one-fits a s h = capture_one_lem a s ∙ ground arith

capture_one-tight :
    (a : Arg) (s : Snapshot)
    → s.offset ≤ default_buffer_size
    → default_buffer_size < s.offset + length (encode a)
    → capture_one a s ≡ (false, s)
unfolding remaining
capture_one-tight a s k h = capture_one_lem a s ∙ ground arith

-- The longest run of the arguments that fits, from the write offset on, and whether it is all.
abbrev pub fitting : ℕ → List Arg → Bool × List Arg
fitting o [] = (true, [])
fitting o (a ∷ rest) =
    let (all, kept) = fitting (o + length (encode a)) rest in
    if leb (o + length (encode a)) default_buffer_size then (all, a ∷ kept) else (false, [])

-- `Capture` on a snapshot stores the arguments in order up to the first that does not fit in
-- the 256 bytes, and that one not even in part; it returns whether all were stored.
pub capture-Holds :
    (new : List Arg) (s : Snapshot) (args : List Arg)
    → Holds s args
    → let (all, kept) = fitting s.offset new in
      let (ok, s') = capture new s in (ok ≡ all) × Holds s' (args ++ kept)
unfolding capture
capture-Holds [] s args h = (refl, rw (append-nil args) h)
capture-Holds (a ∷ new) s args h =
    elim (Bool-cases (leb (s.offset + length (encode a)) default_buffer_size)) [
      | inl fits ↦
          let h' = put-Holds a h (leb→le _ _ fits) in
          let ih = capture-Holds new (count_arg (put s (encode a))) (args ++ (a ∷ [])) h' in
          rw (fits, capture_one-fits a s (leb→le _ _ fits))
            (
              ih.0,
              subst (Holds (capture new (count_arg (put s (encode a)))).1)
                  (append_assoc args (a ∷ []) _) ih.1,
            )
      | inr tight ↦
          rw (tight, capture_one-tight a s h.fits (ground arith)) (refl, rw (append-nil args) h)
    ]
