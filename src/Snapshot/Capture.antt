-- ===== src/Snapshot/Capture.antt =====
-- The state of `BinarySnapshot` and its capture methods. `put` is a `memcpy` to the write offset,
-- which it moves on.
use oneplog.Prelude.{
  ℕ, ◌+◌, ◌-◌, ◌%◌, ◌^◌, Bool, true, false, if◌then◌else◌, ltb, ◌==◌, Option, none, some, List, [],
  ◌∷◌, length, take,
}
use oneplog.Snapshot.Bytes.{write, le_bytes}

abbrev pub default_buffer_size : ℕ
default_buffer_size = 256

abbrev pub header_size : ℕ
header_size = 2

-- `enum class TypeTag`
pub data TypeTag : Type 0 where
  int32 int64 uint32 uint64 float double bool string_view string_copy pointer : TypeTag

abbrev pub tag_byte : TypeTag → ℕ
tag_byte int32 = 0x01
tag_byte int64 = 0x02
tag_byte uint32 = 0x03
tag_byte uint64 = 0x04
tag_byte float = 0x05
tag_byte double = 0x06
tag_byte bool = 0x07
tag_byte string_view = 0x10
tag_byte string_copy = 0x11
tag_byte pointer = 0x20

-- `static_cast<TypeTag>` of a byte; none where no enumerator has that value.
abbrev pub tag_of : ℕ → Option TypeTag
tag_of b =
    if b == 0x01
    then some int32
    else if b == 0x02
    then some int64
    else if b == 0x03
    then some uint32
    else if b == 0x04
    then some uint64
    else if b == 0x05
    then some float
    else if b == 0x06
    then some double
    else if b == 0x07
    then some bool
    else if b == 0x10
    then some string_view
    else if b == 0x11
    then some string_copy
    else if b == 0x20
    then some pointer
    else none

pub record Snapshot : Type 0 where
  pub buffer : ℕ → ℕ
  pub offset : ℕ
  pub arg_count : ℕ

-- The default constructor: two bytes are zeroed, and the others (`junk`) are not initialised.
unfoldable pub new_snapshot : (ℕ → ℕ) → Snapshot
new_snapshot junk = record {
  buffer = write junk 0 (0 ∷ 0 ∷ []);
  offset = header_size;
  arg_count = 0;
}

unfoldable pub reset : Snapshot → Snapshot
reset s = record { buffer = write s.buffer 0 (0 ∷ 0 ∷ []); offset = header_size; arg_count = 0 }

unfoldable pub remaining : Snapshot → ℕ
remaining s = default_buffer_size - s.offset

-- `IsEmpty`
abbrev pub no_args : Snapshot → Bool
no_args s = s.arg_count == 0

abbrev pub put : Snapshot → List ℕ → Snapshot
put s bs = record s { buffer = write s.buffer s.offset bs; offset = s.offset + length bs }

-- `++m_argCount; UpdateArgCount()`
abbrev pub count_arg : Snapshot → Snapshot
count_arg s =
    let n = (s.arg_count + 1) % 2 ^ 16 in
    record s { buffer = write s.buffer 0 (le_bytes 2 n); arg_count = n }

-- `CaptureValue<T>`: the value as the bit pattern of its `n` bytes.
unfoldable pub capture_value : TypeTag → ℕ → ℕ → Snapshot → Bool × Snapshot
unfolding remaining
capture_value tag n v s =
    if ltb (remaining s) (1 + n)
    then (false, s)
    else (true, count_arg (put (put s (tag_byte tag ∷ [])) (le_bytes n v)))

-- `CaptureStringView`: the address and the length, cast to 32 bits.
unfoldable pub capture_string_view : ℕ → ℕ → Snapshot → Bool × Snapshot
unfolding remaining
capture_string_view ptr len s = if ltb (remaining s) (1 + 8 + 4) then (false, s) else (
  true,
  count_arg
      (put (put (put s (tag_byte string_view ∷ [])) (le_bytes 8 ptr)) (le_bytes 4 (len % 2 ^ 32))),
)

-- `CaptureStringData`: the length is cut off at 65535, and the data with it.
unfoldable pub capture_string_data : List ℕ → Snapshot → Bool × Snapshot
unfolding remaining
capture_string_data chars s =
    if ltb (remaining s) (1 + 2 + length chars)
    then (false, s)
    else let len = if ltb 65535 (length chars) then 65535 else length chars in
      let s' = put (put s (tag_byte string_copy ∷ [])) (le_bytes 2 len) in
      (true, count_arg (if ltb 0 len then put s' (take len chars) else s'))

-- The types that `CaptureOne` accepts. Numbers are given by their bit patterns, a `std::string` by
-- its bytes, a `const char*` by the bytes before its terminator, or none if it is null. A string
-- literal or another array of char is a `const char*` or `char*` once its type has decayed.
pub data Arg : Type 0 where
  int32_arg int64_arg uint32_arg uint64_arg float_arg double_arg : ℕ → Arg
  bool_arg : Bool → Arg
  view_arg : ℕ → ℕ → Arg  -- address and length of a std::string_view
  string_arg : List ℕ → Arg
  chars_arg : Option (List ℕ) → Arg

-- The public capture methods, one per type.
abbrev pub capture_int32 : ℕ → Snapshot → Bool × Snapshot
capture_int32 v s = capture_value int32 4 v s

abbrev pub capture_int64 : ℕ → Snapshot → Bool × Snapshot
capture_int64 v s = capture_value int64 8 v s

abbrev pub capture_uint32 : ℕ → Snapshot → Bool × Snapshot
capture_uint32 v s = capture_value uint32 4 v s

abbrev pub capture_uint64 : ℕ → Snapshot → Bool × Snapshot
capture_uint64 v s = capture_value uint64 8 v s

abbrev pub capture_float : ℕ → Snapshot → Bool × Snapshot
capture_float v s = capture_value float 4 v s

abbrev pub capture_double : ℕ → Snapshot → Bool × Snapshot
capture_double v s = capture_value double 8 v s

abbrev pub capture_bool : Bool → Snapshot → Bool × Snapshot
capture_bool v s = capture_value bool 1 (if v then 1 else 0) s

-- `CaptureString(const std::string&)`
abbrev pub capture_string : List ℕ → Snapshot → Bool × Snapshot
capture_string chars s = capture_string_data chars s

-- `CaptureString(const char*)`
abbrev pub capture_chars : Option (List ℕ) → Snapshot → Bool × Snapshot
capture_chars none s = capture_string_data [] s
capture_chars (some chars) s = capture_string_data chars s

unfoldable pub capture_one : Arg → Snapshot → Bool × Snapshot
capture_one (int32_arg v) s = capture_int32 v s
capture_one (int64_arg v) s = capture_int64 v s
capture_one (uint32_arg v) s = capture_uint32 v s
capture_one (uint64_arg v) s = capture_uint64 v s
capture_one (float_arg v) s = capture_float v s
capture_one (double_arg v) s = capture_double v s
capture_one (bool_arg v) s = capture_bool v s
capture_one (view_arg ptr len) s = capture_string_view ptr len s
capture_one (string_arg chars) s = capture_string chars s
capture_one (chars_arg chars) s = capture_chars chars s

-- `Capture(args...)`: the fold over `&&` stops at the first argument that does not fit.
unfoldable pub capture : List Arg → Snapshot → Bool × Snapshot
capture [] s = (true, s)
capture (a ∷ rest) s =
    let (fits, s') = capture_one a s in
    let more = capture rest s' in if fits then more else (false, s')
