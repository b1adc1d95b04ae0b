-- ===== src/Snapshot/Payload.antt =====
-- Reading stored arguments back: what stands behind a tag, and what is left behind an argument.
use oneplog.Prelude.{
  ℕ, ◌+◌, ◌%◌, ◌^◌, ◌≤◌, ◌<◌, ◌≡◌, ◌∙◌, ap, sym, none, some, List, ◌∷◌, ◌++◌, length, length-append,
  arith,
}
use oneplog.Snapshot.Bytes.{read, le_bytes, le_value, length-le_bytes, read_split, read_word}
use oneplog.Snapshot.Capture.{
  Snapshot, Arg, int32_arg, int64_arg, uint32_arg, uint64_arg, float_arg, double_arg, bool_arg,
  view_arg, string_arg, chars_arg,
}
use oneplog.Snapshot.Layout.{encode, encode_string, encode_all, AllTyped}

-- A tag and a payload at `o`.
pub tagged :
    (f : ℕ → ℕ) (o t : ℕ) (bs : List ℕ)
    → read f o (length (t ∷ bs)) ≡ t ∷ bs
    → (f o ≡ t) × (read f (o + 1) (length bs) ≡ bs)
unfolding read
tagged f o t bs h = (cc, cc)

-- What the payload of a copied string reads back as, and its length.
pub string_payload :
    (f : ℕ → ℕ) (o : ℕ) (chars : List ℕ)
    → length chars < 256 ^ 2
    → read f (o + 1) (length (le_bytes 2 (length chars) ++ chars))
      ≡ le_bytes 2 (length chars) ++ chars
    → (le_value (read f (o + 1) 2) ≡ length chars)
      × (read f (o + 1 + 2) (length chars) ≡ chars)
      × (length (encode_string chars) ≡ 3 + length chars)
string_payload f o chars t r =
    let both = read_split f (o + 1) (le_bytes 2 (length chars)) chars r in
    (
      read_word f (o + 1) 2 (length chars) both.0 t,
      ap (λ k. read f (o + 1 + k) (length chars)) (sym (length-le_bytes 2 (length chars))) ∙ both.1,
      omega (
        arith,
        length-le_bytes 2 (length chars),
        length-append (le_bytes 2 (length chars)) chars,
      ),
    )

-- The same of a string view.
pub view_payload :
    (f : ℕ → ℕ) (o ptr len : ℕ)
    → ptr < 256 ^ 8
    → len < 256 ^ 4
    → read f (o + 1) (length (le_bytes 8 ptr ++ le_bytes 4 (len % 2 ^ 32)))
      ≡ le_bytes 8 ptr ++ le_bytes 4 (len % 2 ^ 32)
    → (le_value (read f (o + 1) 8) ≡ ptr)
      × (le_value (read f (o + 1 + 8) 4) ≡ len)
      × (length (encode (view_arg ptr len)) ≡ 13)
view_payload f o ptr len tp tl r =
    let small : len % 2 ^ 32 ≡ len = omega arith in
    let both = read_split f (o + 1) (le_bytes 8 ptr) (le_bytes 4 (len % 2 ^ 32)) r in
    let len_at : read f (o + 1 + 8) (length (le_bytes 4 (len % 2 ^ 32)))
        ≡ le_bytes 4 (len % 2 ^ 32) =
      ap (λ k. read f (o + 1 + k) (length (le_bytes 4 (len % 2 ^ 32))))
        (sym (length-le_bytes 8 ptr))
      ∙ both.1 in
    (
      read_word f (o + 1) 8 ptr both.0 tp,
      read_word f (o + 1 + 8) 4 (len % 2 ^ 32) len_at (omega arith) ∙ small,
      omega (
        arith,
        length-append (le_bytes 8 ptr) (le_bytes 4 (len % 2 ^ 32)),
        length-le_bytes 8 ptr,
        length-le_bytes 4 (len % 2 ^ 32),
      ),
    )

pub one-le-encode : (a : Arg) → 1 ≤ length (encode a)
one-le-encode (int32_arg v) = omega arith
one-le-encode (int64_arg v) = omega arith
one-le-encode (uint32_arg v) = omega arith
one-le-encode (uint64_arg v) = omega arith
one-le-encode (float_arg v) = omega arith
one-le-encode (double_arg v) = omega arith
one-le-encode (bool_arg v) = omega arith
one-le-encode (view_arg ptr len) = omega arith
one-le-encode (string_arg chars) = omega arith
one-le-encode (chars_arg none) = omega arith
one-le-encode (chars_arg (some chars)) = omega arith

-- The arguments that are left at the offset `o`, `index` of them having been used.
pub record Left (s : Snapshot) (index o : ℕ) (args : List Arg) : Type 0 where
  pub typed : AllTyped args
  pub count : index + length args ≡ s.arg_count
  pub bytes : read s.buffer o (length (encode_all args)) ≡ encode_all args
  pub ends : o + length (encode_all args) ≡ s.offset

pub Left-next :
    {s : Snapshot} (index o : ℕ) (a : Arg) (args : List Arg)
    → Left s index o (a ∷ args)
    → (read s.buffer o (length (encode a)) ≡ encode a)
      × Left s (index + 1) (o + length (encode a)) args
Left-next {s} index o a args l =
    let both = read_split s.buffer o (encode a) (encode_all args) l.bytes in
    (
      both.0,
      record {
        typed = l.typed.1;
        count = omega (arith, l.count);
        bytes = both.1;
        ends = omega (arith, l.ends, length-append (encode a) (encode_all args));
      },
    )
