-- ===== src/Snapshot/FormatHolds.antt =====
-- `FormatArg` and `Format` on a snapshot that holds arguments.
use oneplog.Prelude.{
  ℕ, ◌+◌, ◌%◌, ◌^◌, ◌<◌, ◌≡◌, refl, ap, ap₂, Bool, true, false, if◌then◌else◌, none, some, List, [],
  ◌∷◌, ◌++◌, map, length, length-append, arith, ltb, ◌==◌, ◌&&◌,
}
use oneplog.Snapshot.Bytes.{read, le_bytes, le_value, length-le_bytes, read_word}
use oneplog.Snapshot.Capture.{
  Snapshot, Arg, int32_arg, int64_arg, uint32_arg, uint64_arg, float_arg, double_arg, bool_arg,
  view_arg, string_arg, chars_arg, tag_of,
}
use oneplog.Snapshot.Layout.{encode, encode_string, encode_all, IsTyped, AllTyped, render, Holds}
use oneplog.Snapshot.Format.{
  Printer, format_case, format_arg, format_loop, format, true_text, false_text,
}
use oneplog.Snapshot.Payload.{tagged, string_payload, view_payload, one-le-encode, Left, Left-next}

module _ (p : Printer) (mem : ℕ → ℕ) where
  word_pair :
      (print : ℕ → List ℕ) (f : ℕ → ℕ) (o n v t : ℕ)
      → read f (o + 1) (length (le_bytes n v)) ≡ le_bytes n v
      → v < 256 ^ n
      → ◌≡◌ {A = List ℕ × ℕ}
          (print (le_value (read f (o + 1) n)), o + 1 + n)
          (print v, o + length (t ∷ le_bytes n v))
  word_pair print f o n v t r lt =
      ap₂ (λ x y. (x, y)) (ap print (read_word f (o + 1) n v r lt))
        (omega (arith, length-le_bytes n v))

  string_case :
      (f : ℕ → ℕ) (o : ℕ) (chars : List ℕ)
      → length chars < 256 ^ 2
      → read f (o + 1) (length (le_bytes 2 (length chars) ++ chars))
        ≡ le_bytes 2 (length chars) ++ chars
      → format_case p mem (tag_of 0x11) f (o + 1) ≡ (chars, o + length (encode_string chars))
  unfolding format_case
  string_case f o chars t r =
      let (len, text, size) = string_payload f o chars t r in
      rw (len, text) (ap (λ k. (chars, k)) (omega (arith, size)))

  view_case :
      (f : ℕ → ℕ) (o ptr len : ℕ)
      → ptr < 256 ^ 8
      → len < 256 ^ 4
      → read f (o + 1) (length (le_bytes 8 ptr ++ le_bytes 4 (len % 2 ^ 32)))
        ≡ le_bytes 8 ptr ++ le_bytes 4 (len % 2 ^ 32)
      → format_case p mem (tag_of 0x10) f (o + 1)
        ≡ (render p mem (view_arg ptr len), o + length (encode (view_arg ptr len)))
  unfolding format_case
  view_case f o ptr len tp tl r =
      let (ptr_e, len_e, size) = view_payload f o ptr len tp tl r in
      rw (ptr_e, len_e) (ap (λ k. (render p mem (view_arg ptr len), k)) (omega (arith, size)))

  bool_case :
      (f : ℕ → ℕ) (o : ℕ) (b : Bool)
      → read f (o + 1) (length (le_bytes 1 (if b then 1 else 0))) ≡ le_bytes 1 (if b then 1 else 0)
      → format_case p mem (tag_of 0x07) f (o + 1)
        ≡ (render p mem (bool_arg b), o + length (encode (bool_arg b)))
  unfolding format_case le_bytes read
  bool_case f o true r = let e : f (o + 1) ≡ 1 = cc in rw e (ap (λ k. (true_text, k)) (omega arith))
  bool_case f o false r =
      let e : f (o + 1) ≡ 0 = cc in rw e (ap (λ k. (false_text, k)) (omega arith))

  -- Where the bytes of an argument stand, `FormatArg` appends its text and moves behind them.
  pub format_arg_lem :
      (s : Snapshot) (o : ℕ) (a : Arg)
      → IsTyped a
      → read s.buffer o (length (encode a)) ≡ encode a
      → format_arg p mem s o ≡ (render p mem a, o + length (encode a))
  unfolding format_arg format_case
  format_arg_lem s o (int32_arg v) t h =
      let (e, r) = tagged s.buffer o 0x01 (le_bytes 4 v) h in
      rw e (word_pair p.print_int32 s.buffer o 4 v 0x01 r t)
  format_arg_lem s o (int64_arg v) t h =
      let (e, r) = tagged s.buffer o 0x02 (le_bytes 8 v) h in
      rw e (word_pair p.print_int64 s.buffer o 8 v 0x02 r t)
  format_arg_lem s o (uint32_arg v) t h =
      let (e, r) = tagged s.buffer o 0x03 (le_bytes 4 v) h in
      rw e (word_pair p.print_uint32 s.buffer o 4 v 0x03 r t)
  format_arg_lem s o (uint64_arg v) t h =
      let (e, r) = tagged s.buffer o 0x04 (le_bytes 8 v) h in
      rw e (word_pair p.print_uint64 s.buffer o 8 v 0x04 r t)
  format_arg_lem s o (float_arg v) t h =
      let (e, r) = tagged s.buffer o 0x05 (le_bytes 4 v) h in
      rw e (word_pair p.print_float s.buffer o 4 v 0x05 r t)
  format_arg_lem s o (double_arg v) t h =
      let (e, r) = tagged s.buffer o 0x06 (le_bytes 8 v) h in
      rw e (word_pair p.print_double s.buffer o 8 v 0x06 r t)
  format_arg_lem s o (bool_arg b) t h =
      let (e, r) = tagged s.buffer o 0x07 (le_bytes 1 (if b then 1 else 0)) h in
      rw e (bool_case s.buffer o b r)
  format_arg_lem s o (view_arg ptr len) t h =
      let (e, r) = tagged s.buffer o 0x10 (le_bytes 8 ptr ++ le_bytes 4 (len % 2 ^ 32)) h in
      rw e (view_case s.buffer o ptr len t.0 t.1 r)
  format_arg_lem s o (string_arg chars) t h =
      let (e, r) = tagged s.buffer o 0x11 (le_bytes 2 (length chars) ++ chars) h in
      rw e (string_case s.buffer o chars t r)
  format_arg_lem s o (chars_arg none) t h =
      let (e, r) = tagged s.buffer o 0x11 (le_bytes 2 0 ++ []) h in
      rw e (string_case s.buffer o [] (omega arith) r)
  format_arg_lem s o (chars_arg (some chars)) t h =
      let (e, r) = tagged s.buffer o 0x11 (le_bytes 2 (length chars) ++ chars) h in
      rw e (string_case s.buffer o chars t r)

-- The format with each `{}` replaced by the next text, or removed where none is left; a zero byte
-- ends it.
unfoldable pub substitute : List ℕ → List (List ℕ) → List ℕ
substitute [] texts = []
substitute (c ∷ []) texts = if c == 0 then [] else c ∷ []
substitute (c ∷ d ∷ fmt) texts =
    let filled : List ℕ = elim texts [
      | [] ↦ substitute fmt []
      | t ∷ more ↦ t ++ substitute fmt more
    ] in
    let plain = substitute (d ∷ fmt) texts in
    if c == 0 then [] else if c == b'{' && d == b'}' then filled else c ∷ plain

module _ (p : Printer) (mem : ℕ → ℕ) where
  -- One placeholder, given the results for the rest of the format.
  placeholder :
      (fmt : List ℕ) (s : Snapshot) (index o : ℕ) (args : List Arg)
      → Left s index o args
      → ((i o' : ℕ) (more : List Arg)
          → Left s i o' more
          → format_loop p mem fmt s i o' ≡ substitute fmt (map (render p mem) more))
      → (if ltb index s.arg_count && ltb o s.offset
          then (format_arg p mem s o).0
            ++ format_loop p mem fmt s (index + 1) (format_arg p mem s o).1
          else format_loop p mem fmt s index o)
        ≡ (elim (map (render p mem) args) as (λ _. List ℕ) [
          | [] ↦ substitute fmt []
          | t ∷ more ↦ t ++ substitute fmt more
        ])
  placeholder fmt s index o [] l ih = ground (arith, l.count, ih index o [] l)
  placeholder fmt s index o (a ∷ args) l ih =
      let next = Left-next index o a args l in
      ground (
        arith,
        l.count,
        l.ends,
        one-le-encode a,
        length-append (encode a) (encode_all args),
        format_arg_lem p mem s o a l.typed.0 next.0,
        ih (index + 1) (o + length (encode a)) args next.1,
      )

  pub format_loop_lem :
      (fmt : List ℕ) (s : Snapshot) (index o : ℕ) (args : List Arg)
      → Left s index o args
      → format_loop p mem fmt s index o ≡ substitute fmt (map (render p mem) args)
  unfolding format_loop substitute
  format_loop_lem [] s index o args l = refl
  format_loop_lem (c ∷ []) s index o args l = refl
  format_loop_lem (c ∷ d ∷ fmt) s index o args l =
      ap₂ (λ x y. if c == 0 then [] else if c == b'{' && d == b'}' then x else c ∷ y)
        (placeholder fmt s index o args l (format_loop_lem fmt s))
        (format_loop_lem (d ∷ fmt) s index o args l)

  Left-start : {s : Snapshot} {args : List Arg} → Holds s args → AllTyped args → Left s 0 2 args
  Left-start {s} {args} h t = record {
    typed = t;
    count = omega (arith, h.count);
    bytes = h.bytes;
    ends = omega (arith, h.offset_eq);
  }

  -- `Format` on a snapshot that holds one or more typed arguments replaces each `{}` by the text of
  -- the next argument, and removes those for which none is left; with no argument it returns
  -- the format as it is, and for a null format the empty string.
  pub format_lem :
      (fmt : List ℕ) (s : Snapshot) (args : List Arg)
      → Holds s args
      → AllTyped args
      → (format p mem (some fmt) s ≡ (elim args as (λ _. List ℕ) [
        | [] ↦ fmt
        | a ∷ rest ↦ substitute fmt (map (render p mem) (a ∷ rest))
      ]))
        × (format p mem none s ≡ [])
  unfolding format
  format_lem fmt s [] h t = (ground (arith, h.count), refl)
  format_lem fmt s (a ∷ rest) h t =
      (ground (arith, h.count, format_loop_lem fmt s 0 2 (a ∷ rest) (Left-start h t)), refl)
