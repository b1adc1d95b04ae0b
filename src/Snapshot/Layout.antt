-- ===== src/Snapshot/Layout.antt =====
-- The bytes that stand for an argument, and what it means that a snapshot holds a list of
-- arguments.
use oneplog.Prelude.{
  ℕ, ◌+◌, ◌%◌, ◌^◌, ◌≤◌, ◌<◌, ◌≡◌, refl, if◌then◌else◌, none, some, List, [], ◌∷◌, ◌++◌,
  append_assoc, length, length-append, arith, not, ltb, ◌==◌, ◌&&◌,
}
use oneplog.Snapshot.Bytes.{read, le_bytes}
use oneplog.Snapshot.Capture.{
  Snapshot, Arg, int32_arg, int64_arg, uint32_arg, uint64_arg, float_arg, double_arg, bool_arg,
  view_arg, string_arg, chars_arg, default_buffer_size,
}
use oneplog.Snapshot.Format.{Printer, true_text, false_text}

abbrev pub encode_string : List ℕ → List ℕ
encode_string chars = 0x11 ∷ le_bytes 2 (length chars) ++ chars

-- The tag and the payload.
abbrev pub encode : Arg → List ℕ
encode (int32_arg v) = 0x01 ∷ le_bytes 4 v
encode (int64_arg v) = 0x02 ∷ le_bytes 8 v
encode (uint32_arg v) = 0x03 ∷ le_bytes 4 v
encode (uint64_arg v) = 0x04 ∷ le_bytes 8 v
encode (float_arg v) = 0x05 ∷ le_bytes 4 v
encode (double_arg v) = 0x06 ∷ le_bytes 8 v
encode (bool_arg v) = 0x07 ∷ le_bytes 1 (if v then 1 else 0)
encode (view_arg ptr len) = 0x10 ∷ le_bytes 8 ptr ++ le_bytes 4 (len % 2 ^ 32)
encode (string_arg chars) = encode_string chars
encode (chars_arg none) = encode_string []
encode (chars_arg (some chars)) = encode_string chars

abbrev pub encode_all : List Arg → List ℕ
encode_all [] = []
encode_all (a ∷ rest) = encode a ++ encode_all rest

pub encode_all-append : (xs ys : List Arg) → encode_all (xs ++ ys) ≡ encode_all xs ++ encode_all ys
encode_all-append [] ys = refl
encode_all-append (a ∷ xs) ys = rw (encode_all-append xs ys, append_assoc)

-- The values of an argument are those of its C++ type.
abbrev pub IsTyped : Arg → Type 0
IsTyped (int32_arg v) = v < 256 ^ 4
IsTyped (int64_arg v) = v < 256 ^ 8
IsTyped (uint32_arg v) = v < 256 ^ 4
IsTyped (uint64_arg v) = v < 256 ^ 8
IsTyped (float_arg v) = v < 256 ^ 4
IsTyped (double_arg v) = v < 256 ^ 8
IsTyped (bool_arg v) = Unit {0}
IsTyped (view_arg ptr len) = (ptr < 256 ^ 8) × (len < 256 ^ 4)
IsTyped (string_arg chars) = length chars < 256 ^ 2
IsTyped (chars_arg none) = Unit {0}
IsTyped (chars_arg (some chars)) = length chars < 256 ^ 2

abbrev pub AllTyped : List Arg → Type 0
AllTyped [] = Unit {0}
AllTyped (a ∷ rest) = IsTyped a × AllTyped rest

-- The text that an argument stands for, in a process with the memory `mem`.
abbrev pub render : Printer → (ℕ → ℕ) → Arg → List ℕ
render p mem (int32_arg v) = p.print_int32 v
render p mem (int64_arg v) = p.print_int64 v
render p mem (uint32_arg v) = p.print_uint32 v
render p mem (uint64_arg v) = p.print_uint64 v
render p mem (float_arg v) = p.print_float v
render p mem (double_arg v) = p.print_double v
render p mem (bool_arg v) = if v then true_text else false_text
render p mem (view_arg ptr len) = if not (ptr == 0) && ltb 0 len then read mem ptr len else []
render p mem (string_arg chars) = chars
render p mem (chars_arg none) = []
render p mem (chars_arg (some chars)) = chars

-- The buffer holds the count, then the arguments, and nothing behind them is in use.
pub record Holds (s : Snapshot) (args : List Arg) : Type 0 where
  pub offset_eq : s.offset ≡ 2 + length (encode_all args)
  pub bytes : read s.buffer 2 (length (encode_all args)) ≡ encode_all args
  pub count : s.arg_count ≡ length args
  pub header : read s.buffer 0 2 ≡ le_bytes 2 (length args)
  pub fits : s.offset ≤ default_buffer_size

pub length-le-encode_all : (args : List Arg) → length args ≤ length (encode_all args)
length-le-encode_all [] = omega arith
length-le-encode_all (a ∷ rest) =
    omega (arith, length-append (encode a) (encode_all rest), length-le-encode_all rest, one a)
  where
    one : (b : Arg) → 1 ≤ length (encode b)
    one (int32_arg v) = omega arith
    one (int64_arg v) = omega arith
    one (uint32_arg v) = omega arith
    one (uint64_arg v) = omega arith
    one (float_arg v) = omega arith
    one (double_arg v) = omega arith
    one (bool_arg v) = omega arith
    one (view_arg ptr len) = omega arith
    one (string_arg chars) = omega arith
    one (chars_arg none) = omega arith
    one (chars_arg (some chars)) = omega arith
