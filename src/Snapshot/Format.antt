-- ===== src/Snapshot/Format.antt =====
-- `Format`, `FormatAll` and `FormatArg`. What the C++ library prints for a value is a parameter.
use oneplog.Prelude.{
  ℕ, zero, suc, ◌+◌, not, if◌then◌else◌, ltb, leb, ◌==◌, ◌&&◌, Option, none, some, List, [], ◌∷◌,
  ◌++◌,
}
use oneplog.Snapshot.Bytes.{read, le_value}
use oneplog.Snapshot.Capture.{
  Snapshot, header_size, tag_of, TypeTag, int32, int64, uint32, uint64, float, double, bool,
  string_view, string_copy, pointer,
}

-- `std::to_string` on each type and `snprintf("%p")`, from bit patterns to bytes.
pub record Printer : Type 0 where
  pub print_int32 : ℕ → List ℕ
  pub print_int64 : ℕ → List ℕ
  pub print_uint32 : ℕ → List ℕ
  pub print_uint64 : ℕ → List ℕ
  pub print_float : ℕ → List ℕ
  pub print_double : ℕ → List ℕ
  pub print_pointer : ℕ → List ℕ

abbrev pub true_text : List ℕ
true_text = b't' ∷ b'r' ∷ b'u' ∷ b'e' ∷ []

abbrev pub false_text : List ℕ
false_text = b'f' ∷ b'a' ∷ b'l' ∷ b's' ∷ b'e' ∷ []

-- `mem` is the memory of the process that formats, by address.
module _ (p : Printer) (mem : ℕ → ℕ) where
  -- The `switch` of `FormatArg`, with the offset behind the tag.
  unfoldable pub format_case : Option TypeTag → (ℕ → ℕ) → ℕ → List ℕ × ℕ
  format_case (some int32) buf o = (p.print_int32 (le_value (read buf o 4)), o + 4)
  format_case (some int64) buf o = (p.print_int64 (le_value (read buf o 8)), o + 8)
  format_case (some uint32) buf o = (p.print_uint32 (le_value (read buf o 4)), o + 4)
  format_case (some uint64) buf o = (p.print_uint64 (le_value (read buf o 8)), o + 8)
  format_case (some float) buf o = (p.print_float (le_value (read buf o 4)), o + 4)
  format_case (some double) buf o = (p.print_double (le_value (read buf o 8)), o + 8)
  format_case (some bool) buf o = ((if buf o == 0 then false_text else true_text), o + 1)
  format_case (some string_view) buf o =
      let ptr = le_value (read buf o 8) in
      let len = le_value (read buf (o + 8) 4) in
      ((if not (ptr == 0) && ltb 0 len then read mem ptr len else []), o + 8 + 4)
  format_case (some string_copy) buf o =
      let len = le_value (read buf o 2) in (read buf (o + 2) len, o + 2 + len)
  format_case (some pointer) buf o = (p.print_pointer (le_value (read buf o 8)), o + 8)
  format_case none buf o = ([], o)

  -- `FormatArg`: what it appends, and the offset it leaves.
  unfoldable pub format_arg : Snapshot → ℕ → List ℕ × ℕ
  format_arg s o = format_case (tag_of (s.buffer o)) s.buffer (o + 1)

  -- The loop over the format string: `index` is `argIndex`, `o` the read offset. The list is what
  -- stands before the terminator of the format.
  unfoldable pub format_loop : List ℕ → Snapshot → ℕ → ℕ → List ℕ
  format_loop [] s index o = []
  format_loop (c ∷ []) s index o = if c == 0 then [] else c ∷ []
  format_loop (c ∷ d ∷ rest) s index o =
      let (text, o') = format_arg s o in
      let filled = format_loop rest s (index + 1) o' in
      let skipped = format_loop rest s index o in
      let plain = format_loop (d ∷ rest) s index o in
      if c == 0
      then []
      else if c == b'{' && d == b'}'
      then if ltb index s.arg_count && ltb o s.offset then text ++ filled else skipped
      else c ∷ plain

  -- `Format`; the format is the bytes before the terminator, or none for a null pointer.
  unfoldable pub format : Option (List ℕ) → Snapshot → List ℕ
  format none s = []
  format (some fmt) s = if s.arg_count == 0 then fmt else format_loop fmt s 0 header_size

  -- The fallback loop of `FormatAll`, along the arguments left.
  unfoldable pub join_args : ℕ → Snapshot → ℕ → ℕ → List ℕ
  join_args zero s index o = []
  join_args (suc n) s index o =
      let (text, o') = format_arg s o in
      let rest = join_args n s (index + 1) o' in
      if ltb o s.offset then (if ltb 0 index then b' ' ∷ [] else []) ++ text ++ rest else []

  -- The end of `FormatAll`, once the format string is known.
  unfoldable pub format_with : List ℕ → Snapshot → ℕ → List ℕ
  format_with fmt s o = if s.arg_count == 1 then fmt else format_loop fmt s 1 o

  -- `FormatAll` behind the first tag.
  unfoldable pub format_all_case : Option TypeTag → Snapshot → List ℕ
  format_all_case (some string_view) s =
      let ptr = le_value (read s.buffer 3 8) in
      let len = le_value (read s.buffer 11 4) in
      let fmt = if not (ptr == 0) && ltb 0 len && ltb len 10000 then read mem ptr len else [] in
      if ltb s.offset 15 then [] else format_with fmt s 15
  format_all_case (some string_copy) s =
      let len = le_value (read s.buffer 3 2) in
      if ltb s.offset 5
      then []
      else if ltb s.offset (5 + len)
      then []
      else format_with (read s.buffer 5 len) s (5 + len)
  format_all_case _ s = join_args s.arg_count s 0 header_size

  unfoldable pub format_all : Snapshot → List ℕ
  format_all s =
      if s.arg_count == 0
      then []
      else if leb s.offset header_size
      then []
      else format_all_case (tag_of (s.buffer header_size)) s
