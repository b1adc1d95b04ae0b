-- ===== src/Snapshot/Tests.antt =====
-- The properties of `BinarySnapshot` at concrete arguments
-- (include/oneplog/internal/binary_snapshot.hpp).
use oneplog.Prelude.{
  ℕ, ◌+◌, ◌≡◌, ◌==◌, true, false, none, some, List, [], ◌∷◌, arith, inl, if◌then◌else◌, replicate,
}
use oneplog.Snapshot.Capture.{
  Snapshot, new_snapshot, capture, Arg, view_arg, string_arg, int32_arg, bool_arg,
}
use oneplog.Snapshot.Layout.{Holds, AllTyped}
use oneplog.Snapshot.CaptureHolds.{capture-Holds, new_snapshot-Holds}
use oneplog.Snapshot.Format.{Printer, format, format_all}
use oneplog.Snapshot.FormatHolds.{substitute, format_lem}
use oneplog.Snapshot.Bytes.{read, le_bytes}
use oneplog.Snapshot.ConvertHolds.{AllSafe}
use oneplog.Snapshot.Convert.{convert_pointers_to_data, serialize_to, deserialize, snapshot_eq}
use oneplog.Snapshot.Transfer.{convert-Holds, convert-format_all}
use oneplog.Snapshot.Serialize.{deserialize-serialize_to}

-- A printer of one character, and two memories: at 1000 the first has "a{}".
abbrev digits : ℕ → List ℕ
digits v = (48 + v) ∷ []

abbrev printer : Printer
printer = record {
  print_int32 = digits;
  print_int64 = digits;
  print_uint32 = digits;
  print_uint64 = digits;
  print_float = digits;
  print_double = digits;
  print_pointer = digits;
}

abbrev blank : ℕ → ℕ
blank i = 0

abbrev memory : ℕ → ℕ
memory i = if i == 1000 then 97 else if i == 1001 then 123 else if i == 1002 then 125 else 0

abbrev args : List Arg
args = view_arg 1000 3 ∷ int32_arg 5 ∷ []

abbrev captured : Snapshot
captured = (capture args (new_snapshot blank)).1

captured-Holds : Holds captured args
unfolding new_snapshot le_bytes
captured-Holds = (capture-Holds args (new_snapshot blank) [] (new_snapshot-Holds blank)).1

args-AllTyped : AllTyped args
args-AllTyped = ((omega arith, omega arith), (omega arith, tt))

args-AllSafe : AllSafe args
args-AllSafe = (inl (omega arith), (tt, tt))

-- The second text does not fit.
capture-Holds_example :
    let (ok, s') =
      capture
        (int32_arg 5 ∷ string_arg (replicate 300 65) ∷ bool_arg true ∷ [])
        (new_snapshot blank) in
    (ok ≡ false) × Holds s' (int32_arg 5 ∷ [])
unfolding new_snapshot le_bytes
capture-Holds_example =
    capture-Holds (int32_arg 5 ∷ string_arg (replicate 300 65) ∷ bool_arg true ∷ [])
      (new_snapshot blank) [] (new_snapshot-Holds blank)

format_lem_example :
    (format printer memory (some (120 ∷ 123 ∷ 125 ∷ 123 ∷ 125 ∷ 123 ∷ 125 ∷ [])) captured
      ≡ 120 ∷ 97 ∷ 123 ∷ 125 ∷ 53 ∷ [])
    × (format printer memory none captured ≡ [])
unfolding substitute read
format_lem_example =
    format_lem printer memory (120 ∷ 123 ∷ 125 ∷ 123 ∷ 125 ∷ 123 ∷ 125 ∷ []) captured args
      captured-Holds args-AllTyped

convert-Holds_example :
    Holds
      (convert_pointers_to_data memory blank captured)
      (string_arg (97 ∷ 123 ∷ 125 ∷ []) ∷ int32_arg 5 ∷ [])
unfolding read le_bytes
convert-Holds_example =
    convert-Holds memory blank captured args captured-Holds args-AllTyped args-AllSafe

-- The other process has nothing at the address.
convert-format_all_example :
    format_all printer blank (convert_pointers_to_data memory blank captured)
    ≡ format_all printer memory captured
unfolding read le_bytes
convert-format_all_example =
    convert-format_all printer memory blank blank captured (view_arg 1000 3) (int32_arg 5 ∷ [])
      captured-Holds args-AllTyped args-AllSafe (omega arith) (omega arith)

deserialize-serialize_to_example :
    let copy = deserialize blank (serialize_to captured blank 4096) 4096 captured.offset in
    (snapshot_eq captured copy ≡ true) × Holds copy args
deserialize-serialize_to_example =
    deserialize-serialize_to blank blank 4096 captured args captured-Holds
