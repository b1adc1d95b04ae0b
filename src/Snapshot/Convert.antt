-- ===== src/Snapshot/Convert.antt =====
-- `ConvertPointersToData` with `GetTypeDataSize`, serialisation, and comparison.
use oneplog.Prelude.{
  ℕ, zero, suc, ◌+◌, Bool, true, false, not, if◌then◌else◌, ltb, leb, ◌==◌, ◌&&◌, Option, none,
  some, [], ◌∷◌,
}
use oneplog.Snapshot.Bytes.{read, write, le_bytes, le_value}
use oneplog.Snapshot.Capture.{
  Snapshot, header_size, default_buffer_size, tag_of, tag_byte, put, TypeTag, int32, int64, uint32,
  uint64, float, double, bool, string_view, string_copy, pointer, new_snapshot,
}

-- `GetTypeDataSize`, with the offset behind the tag.
unfoldable pub type_data_size : Option TypeTag → (ℕ → ℕ) → ℕ → ℕ
type_data_size (some int32) buf o = 4
type_data_size (some uint32) buf o = 4
type_data_size (some float) buf o = 4
type_data_size (some int64) buf o = 8
type_data_size (some uint64) buf o = 8
type_data_size (some double) buf o = 8
type_data_size (some pointer) buf o = 8
type_data_size (some bool) buf o = 1
type_data_size (some string_view) buf o = 8 + 4
type_data_size (some string_copy) buf o = 2 + le_value (read buf o 2)
type_data_size none buf o = 0

-- `true` for the tag that is converted.
abbrev pub is_string_view : Option TypeTag → Bool
is_string_view (some string_view) = true
is_string_view _ = false

-- Another argument, copied with its tag.
unfoldable pub copy_arg : (ℕ → ℕ) → ℕ → ℕ → ℕ → Snapshot → Snapshot
copy_arg buf tag o size new =
    if leb (new.offset + (1 + size)) default_buffer_size
    then record (put (put new (tag ∷ [])) (read buf o size)) { arg_count = new.arg_count + 1 }
    else new

module _ (mem : ℕ → ℕ) where
  -- A StringView at the offset behind its tag, as a StringCopy at the end of the new buffer.
  unfoldable pub convert_view : (ℕ → ℕ) → ℕ → Snapshot → Snapshot
  convert_view buf o new =
      let ptr = le_value (read buf o 8) in
      let len = le_value (read buf (o + 8) 4) in
      let str_len = if ltb 65535 len then 65535 else len in
      let new' = put (put new (tag_byte string_copy ∷ [])) (le_bytes 2 str_len) in
      let new'' =
        if not (ptr == 0) && ltb 0 str_len then put new' (read mem ptr str_len) else new' in
      if leb (new.offset + (1 + 2 + len)) default_buffer_size
      then record new'' { arg_count = new.arg_count + 1 }
      else new

  -- The `while` loop, with fuel: `o` is the read offset in the old buffer, `new` the new buffer
  -- with its offset and count. Each round moves `o` on, so `m_offset` rounds are enough.
  unfoldable pub convert_loop : ℕ → Snapshot → ℕ → Snapshot → Snapshot
  convert_loop zero s o new = new
  convert_loop (suc fuel) s o new =
      let tag = tag_of (s.buffer o) in
      let size = type_data_size tag s.buffer (o + 1) in
      let viewed = convert_loop fuel s (o + 1 + 8 + 4) (convert_view s.buffer (o + 1) new) in
      let copied =
        convert_loop fuel s (o + 1 + size) (copy_arg s.buffer (s.buffer o) (o + 1) size new) in
      if ltb o s.offset && ltb new.arg_count s.arg_count
      then if is_string_view tag then viewed else copied
      else new

  -- `junk` is what the new array holds before it is written.
  unfoldable pub convert_pointers_to_data : (ℕ → ℕ) → Snapshot → Snapshot
  convert_pointers_to_data junk s =
      let new =
        convert_loop s.offset s header_size
          (record { buffer = junk; offset = header_size; arg_count = 0 }) in
      if s.arg_count == 0
      then s
      else record new { buffer = write new.buffer 0 (le_bytes 2 new.arg_count) }

-- `SerializeTo`: the caller's memory, with the used bytes copied to the address `at`.
unfoldable pub serialize_to : Snapshot → (ℕ → ℕ) → ℕ → ℕ → ℕ
serialize_to s dest at = write dest at (read s.buffer 0 s.offset)

-- `Deserialize` of `size` bytes at the address `at`.
unfoldable pub deserialize : (ℕ → ℕ) → (ℕ → ℕ) → ℕ → ℕ → Snapshot
deserialize junk src at size =
    let copy_size = if ltb size default_buffer_size then size else default_buffer_size in
    record {
      buffer = write (new_snapshot junk).buffer 0 (read src at copy_size);
      offset = copy_size;
      arg_count = le_value (read src at 2);
    }

-- `memcmp(...) == 0` over the bytes that both hold
unfoldable pub same_bytes : (ℕ → ℕ) → (ℕ → ℕ) → ℕ → ℕ → Bool
same_bytes f g o zero = true
same_bytes f g o (suc n) = (f o == g o) && same_bytes f g (o + 1) n

-- `operator==`
unfoldable pub snapshot_eq : Snapshot → Snapshot → Bool
snapshot_eq s t =
    if not (s.arg_count == t.arg_count)
    then false
    else if not (s.offset == t.offset)
    then false
    else same_bytes s.buffer t.buffer 0 s.offset
