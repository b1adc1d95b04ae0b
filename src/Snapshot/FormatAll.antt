-- ===== src/Snapshot/FormatAll.antt =====
-- `FormatAll` on a snapshot that holds a text and arguments.
use oneplog.Prelude.{
  ℕ, ◌+◌, ◌%◌, ◌^◌, ◌<◌, ◌≡◌, subst, none, some, List, [], ◌∷◌, ◌++◌, map, length, arith,
}
use oneplog.Snapshot.Bytes.{read, le_bytes}
use oneplog.Snapshot.Capture.{
  Snapshot, Arg, int32_arg, int64_arg, uint32_arg, uint64_arg, float_arg, double_arg, bool_arg,
  view_arg, string_arg, chars_arg, tag_of,
}
use oneplog.Snapshot.Layout.{encode, encode_string, AllTyped, render, Holds}
use oneplog.Snapshot.Format.{Printer, format_with, format_all, format_all_case}
use oneplog.Snapshot.Payload.{tagged, string_payload, view_payload, Left, Left-next}
use oneplog.Snapshot.FormatHolds.{substitute, format_loop_lem}

-- A first argument that `FormatAll` takes for the format.
abbrev pub IsText : Arg → Type 0
IsText (view_arg ptr len) = len < 10000
IsText (string_arg chars) = Unit {0}
IsText (chars_arg none) = Unit {0}
IsText (chars_arg (some chars)) = Unit {0}
IsText _ = ⊥

-- What `FormatAll` promises: the format alone, or the format with the texts put in.
abbrev pub filled_format : List ℕ → List (List ℕ) → List ℕ
filled_format fmt [] = fmt
filled_format fmt (t ∷ texts) = substitute fmt (t ∷ texts)

module _ (p : Printer) (mem : ℕ → ℕ) where
  format_with_lem :
      (fmt : List ℕ) (s : Snapshot) (o : ℕ) (args : List Arg)
      → Left s 1 o args
      → format_with p mem fmt s o ≡ filled_format fmt (map (render p mem) args)
  unfolding format_with
  format_with_lem fmt s o [] l = ground (arith, l.count)
  format_with_lem fmt s o (a ∷ args) l =
      ground (arith, l.count, format_loop_lem p mem fmt s 1 o (a ∷ args) l)

  string_format :
      (s : Snapshot) (chars : List ℕ) (args : List Arg)
      → length chars < 256 ^ 2
      → read s.buffer 2 (length (encode_string chars)) ≡ encode_string chars
      → Left s 1 (2 + length (encode_string chars)) args
      → format_all_case p mem (tag_of 0x11) s ≡ filled_format chars (map (render p mem) args)
  unfolding format_all_case
  string_format s chars args t h l =
      let (len, text, size) =
        string_payload s.buffer 2 chars t
          (tagged s.buffer 2 0x11 (le_bytes 2 (length chars) ++ chars) h).1 in
      let l' : Left s 1 (5 + length chars) args =
        subst (λ o. Left s 1 o args) (omega (arith, size)) l in
      ground (arith, len, text, l'.ends, format_with_lem chars s (5 + length chars) args l')

  view_format :
      (s : Snapshot) (ptr len : ℕ) (args : List Arg)
      → (ptr < 256 ^ 8)
      → len < 10000
      → read s.buffer 2 (length (encode (view_arg ptr len))) ≡ encode (view_arg ptr len)
      → Left s 1 (2 + length (encode (view_arg ptr len))) args
      → format_all_case p mem (tag_of 0x10) s
        ≡ filled_format (render p mem (view_arg ptr len)) (map (render p mem) args)
  unfolding format_all_case
  view_format s ptr len args tp tl h l =
      let (ptr_e, len_e, size) =
        view_payload s.buffer 2 ptr len tp (omega arith)
          (tagged s.buffer 2 0x10 (le_bytes 8 ptr ++ le_bytes 4 (len % 2 ^ 32)) h).1 in
      let l' : Left s 1 15 args = subst (λ o. Left s 1 o args) (omega (arith, size)) l in
      ground (
        arith,
        ptr_e,
        len_e,
        l'.ends,
        format_with_lem (render p mem (view_arg ptr len)) s 15 args l',
      )

  -- The first argument and the others.
  first-Left :
      (s : Snapshot) (f : Arg) (args : List Arg)
      → Holds s (f ∷ args)
      → AllTyped (f ∷ args)
      → (read s.buffer 2 (length (encode f)) ≡ encode f) × Left s 1 (2 + length (encode f)) args
  first-Left s f args h t = Left-next 0 2 f args (record {
    typed = t;
    count = omega (arith, h.count);
    bytes = h.bytes;
    ends = omega (arith, h.offset_eq);
  })

  -- `FormatAll` on a snapshot that holds typed arguments, the first of them a text (a view shorter
  -- than 10000 bytes): the first text alone if there is no other argument, and otherwise that text
  -- with each `{}` replaced by the text of the next argument, or removed where none is left.
  pub format_all_lem :
      (s : Snapshot) (f : Arg) (args : List Arg)
      → Holds s (f ∷ args)
      → AllTyped (f ∷ args)
      → IsText f
      → format_all p mem s ≡ filled_format (render p mem f) (map (render p mem) args)
  unfolding format_all
  format_all_lem s (view_arg ptr len) args h t i =
      let (r, l) = first-Left s (view_arg ptr len) args h t in
      let e = (tagged s.buffer 2 0x10 (le_bytes 8 ptr ++ le_bytes 4 (len % 2 ^ 32)) r).0 in
      ground (arith, h.count, l.ends, e, view_format s ptr len args t.0.0 i r l)
  format_all_lem s (string_arg chars) args h t i =
      let (r, l) = first-Left s (string_arg chars) args h t in
      let e = (tagged s.buffer 2 0x11 (le_bytes 2 (length chars) ++ chars) r).0 in
      ground (arith, h.count, l.ends, e, string_format s chars args t.0 r l)
  format_all_lem s (chars_arg none) args h t i =
      let (r, l) = first-Left s (chars_arg none) args h t in
      let e = (tagged s.buffer 2 0x11 (le_bytes 2 0 ++ []) r).0 in
      ground (arith, h.count, l.ends, e, string_format s [] args (omega arith) r l)
  format_all_lem s (chars_arg (some chars)) args h t i =
      let (r, l) = first-Left s (chars_arg (some chars)) args h t in
      let e = (tagged s.buffer 2 0x11 (le_bytes 2 (length chars) ++ chars) r).0 in
      ground (arith, h.count, l.ends, e, string_format s chars args t.0 r l)
  format_all_lem s (int32_arg v) args h t i = absurd i
  format_all_lem s (int64_arg v) args h t i = absurd i
  format_all_lem s (uint32_arg v) args h t i = absurd i
  format_all_lem s (uint64_arg v) args h t i = absurd i
  format_all_lem s (float_arg v) args h t i = absurd i
  format_all_lem s (double_arg v) args h t i = absurd i
  format_all_lem s (bool_arg v) args h t i = absurd i
