-- ===== src/Snapshot/Transfer.antt =====
-- `ConvertPointersToData` and `FormatAll`, across two processes.
use oneplog.Prelude.{
  ℕ, zero, suc, ◌+◌, ◌≤◌, ◌<◌, ◌≡◌, refl, ◌∙◌, ap, ap₂, sym, subst, true, false, if◌then◌else◌,
  none, some, List, [], ◌∷◌, map, length, length-append, arith, ◌==◌,
}
use oneplog.Snapshot.Bytes.{read, write, le_bytes, length-le_bytes, read-write, read-write_after}
use oneplog.Snapshot.Capture.{
  Snapshot, Arg, int32_arg, int64_arg, uint32_arg, uint64_arg, float_arg, double_arg, bool_arg,
  view_arg, string_arg, chars_arg, default_buffer_size, header_size,
}
use oneplog.Snapshot.Convert.{convert_pointers_to_data}
use oneplog.Snapshot.Layout.{
  encode, encode_all, IsTyped, AllTyped, render, Holds, length-le-encode_all,
}
use oneplog.Snapshot.Payload.{Left}
use oneplog.Snapshot.CaptureOne.{length-encode_string}
use oneplog.Snapshot.ConvertHolds.{to_copy, IsSafe, AllSafe, if_false}
use oneplog.Snapshot.ConvertLoop.{keep, Building, loop_Building, if_true}
use oneplog.Snapshot.Format.{Printer, format_all}
use oneplog.Snapshot.FormatAll.{IsText, filled_format, format_all_lem}

Building-start :
    (junk : ℕ → ℕ) → Building (record { buffer = junk; offset = header_size; arg_count = 0 }) []
unfolding read
Building-start junk = record { offset_eq = refl; bytes = refl; count = refl; fits = omega arith }

-- With its header written the new buffer holds what it was given.
Building-Holds :
    {new : Snapshot} {kept : List Arg}
    → Building new kept
    → Holds (record new { buffer = write new.buffer 0 (le_bytes 2 new.arg_count) }) kept
Building-Holds {new} {kept} b = record {
  offset_eq = b.offset_eq;
  bytes =
      read-write_after new.buffer 0 (le_bytes 2 new.arg_count) 2 (length (encode_all kept))
        (omega (arith, length-le_bytes 2 new.arg_count))
      ∙ b.bytes;
  count = b.count;
  header =
      ap (read (write new.buffer 0 (le_bytes 2 new.arg_count)) 0)
        (sym (length-le_bytes 2 new.arg_count))
      ∙ read-write new.buffer 0 (le_bytes 2 new.arg_count)
      ∙ ap (le_bytes 2) b.count;
  fits = b.fits;
}

-- `ConvertPointersToData` on a snapshot that holds typed arguments with no null view of positive
-- length leaves one that holds, in order, each argument that still fits behind those kept
-- before it, every string view replaced by a copy of the bytes that it pointed to.
pub convert-Holds :
    (mem junk : ℕ → ℕ) (s : Snapshot) (args : List Arg)
    → Holds s args
    → AllTyped args
    → AllSafe args
    → Holds (convert_pointers_to_data mem junk s) (keep 2 (map (to_copy mem) args))
unfolding convert_pointers_to_data
convert-Holds mem junk s [] h t safe =
    let none_held : (s.arg_count == 0) ≡ true = ground (arith, h.count) in
    subst (λ r. Holds r []) (sym (if_true _ s _ none_held)) h
convert-Holds mem junk s (a ∷ args) h t safe =
    let some_held : (s.arg_count == 0) ≡ false = ground (arith, h.count) in
    let all_left : Left s 0 2 (a ∷ args) = record {
      typed = t;
      count = omega (arith, h.count);
      bytes = h.bytes;
      ends = omega (arith, h.offset_eq);
    } in
    let more : length (a ∷ args) < s.offset =
      omega (arith, h.offset_eq, length-le-encode_all (a ∷ args)) in
    subst (λ r. Holds r (keep 2 (map (to_copy mem) (a ∷ args)))) (sym (if_false _ s _ some_held))
      (Building-Holds (
        loop_Building mem s (a ∷ args) s.offset 0 2 _ [] all_left safe (Building-start junk)
          (omega arith) more))

keep_all :
    (o : ℕ) (args : List Arg)
    → o + length (encode_all args) ≤ default_buffer_size
    → keep o args ≡ args
keep_all o [] h = refl
keep_all o (a ∷ args) h =
    ground
      (arith, length-append (encode a) (encode_all args), keep_all (o + length (encode a)) args)

-- The text of an argument survives the copy, whatever the memory of the process that reads it.
render-to_copy :
    (p : Printer) (mem mem' : ℕ → ℕ) (a : Arg)
    → IsSafe a
    → render p mem' (to_copy mem a) ≡ render p mem a
unfolding read
render-to_copy p mem mem' (view_arg ptr zero) s = ground arith
render-to_copy p mem mem' (view_arg ptr (suc len)) s = ground arith
render-to_copy p mem mem' (int32_arg v) s = refl
render-to_copy p mem mem' (int64_arg v) s = refl
render-to_copy p mem mem' (uint32_arg v) s = refl
render-to_copy p mem mem' (uint64_arg v) s = refl
render-to_copy p mem mem' (float_arg v) s = refl
render-to_copy p mem mem' (double_arg v) s = refl
render-to_copy p mem mem' (bool_arg v) s = refl
render-to_copy p mem mem' (string_arg chars) s = refl
render-to_copy p mem mem' (chars_arg none) s = refl
render-to_copy p mem mem' (chars_arg (some chars)) s = refl

map-render :
    (p : Printer) (mem mem' : ℕ → ℕ) (args : List Arg)
    → AllSafe args
    → map (render p mem') (map (to_copy mem) args) ≡ map (render p mem) args
map-render p mem mem' [] s = refl
map-render p mem mem' (a ∷ args) s =
    ap₂ ◌∷◌ (render-to_copy p mem mem' a s.0) (map-render p mem mem' args s.1)

IsText-to_copy : (mem : ℕ → ℕ) (a : Arg) → IsText a → IsText (to_copy mem a)
IsText-to_copy mem (view_arg ptr len) i = tt
IsText-to_copy mem (string_arg chars) i = i
IsText-to_copy mem (chars_arg none) i = i
IsText-to_copy mem (chars_arg (some chars)) i = i
IsText-to_copy mem (int32_arg v) i = i
IsText-to_copy mem (int64_arg v) i = i
IsText-to_copy mem (uint32_arg v) i = i
IsText-to_copy mem (uint64_arg v) i = i
IsText-to_copy mem (float_arg v) i = i
IsText-to_copy mem (double_arg v) i = i
IsText-to_copy mem (bool_arg v) i = i

IsTyped-to_copy :
    (mem : ℕ → ℕ) (a : Arg)
    → IsTyped a
    → length (encode (to_copy mem a)) ≤ default_buffer_size
    → IsTyped (to_copy mem a)
IsTyped-to_copy mem (view_arg ptr len) t h =
    omega (arith, length-encode_string (if ptr == 0 then [] else read mem ptr len))
IsTyped-to_copy mem (string_arg chars) t h = t
IsTyped-to_copy mem (chars_arg none) t h = t
IsTyped-to_copy mem (chars_arg (some chars)) t h = t
IsTyped-to_copy mem (int32_arg v) t h = t
IsTyped-to_copy mem (int64_arg v) t h = t
IsTyped-to_copy mem (uint32_arg v) t h = t
IsTyped-to_copy mem (uint64_arg v) t h = t
IsTyped-to_copy mem (float_arg v) t h = t
IsTyped-to_copy mem (double_arg v) t h = t
IsTyped-to_copy mem (bool_arg v) t h = t

AllTyped-to_copy :
    (mem : ℕ → ℕ) (args : List Arg)
    → AllTyped args
    → length (encode_all (map (to_copy mem) args)) ≤ default_buffer_size
    → AllTyped (map (to_copy mem) args)
AllTyped-to_copy mem [] t h = tt
AllTyped-to_copy mem (a ∷ args) t h =
    let size = length-append (encode (to_copy mem a)) (encode_all (map (to_copy mem) args)) in
    (
      IsTyped-to_copy mem a t.0 (omega (arith, size)),
      AllTyped-to_copy mem args t.1 (omega (arith, size)),
    )

-- If all arguments fit with their views copied, the converted snapshot gives in any process,
-- whatever its memory, the text that the original gives in the process that captured it.
pub convert-format_all :
    (p : Printer) (mem mem' junk : ℕ → ℕ) (s : Snapshot) (f : Arg) (args : List Arg)
    → Holds s (f ∷ args)
    → AllTyped (f ∷ args)
    → AllSafe (f ∷ args)
    → IsText f
    → 2 + length (encode_all (map (to_copy mem) (f ∷ args))) ≤ default_buffer_size
    → format_all p mem' (convert_pointers_to_data mem junk s) ≡ format_all p mem s
convert-format_all p mem mem' junk s f args h t safe i room =
    let copies = map (to_copy mem) (f ∷ args) in
    let held : Holds (convert_pointers_to_data mem junk s) copies =
      subst (Holds (convert_pointers_to_data mem junk s)) (keep_all 2 copies room)
        (convert-Holds mem junk s (f ∷ args) h t safe) in
    let typed = AllTyped-to_copy mem (f ∷ args) t (omega arith) in
    format_all_lem p mem' (convert_pointers_to_data mem junk s) (to_copy mem f)
      (map (to_copy mem) args) held typed (IsText-to_copy mem f i)
    ∙ ap₂ filled_format (render-to_copy p mem mem' f safe.0) (map-render p mem mem' args safe.1)
    ∙ sym (format_all_lem p mem s f args h t i)
