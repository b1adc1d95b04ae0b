-- ===== src/Pipeline/Tests.antt =====
-- The pipeline with one entry in a ring of four (include/oneplog/internal/pipeline_thread.hpp).
use oneplog.Prelude.{
  ℕ, ◌+◌, ◌≡◌, refl, true, if◌then◌else◌, some, List, [], ◌∷◌, ◌==◌, map, arith, inl,
}
use oneplog.Common.Level.{info}
use oneplog.Snapshot.Bytes.{read, le_bytes}
use oneplog.Snapshot.Capture.{Snapshot, Arg, view_arg, int32_arg, new_snapshot, capture}
use oneplog.Snapshot.Layout.{Holds}
use oneplog.Snapshot.CaptureHolds.{capture-Holds, new_snapshot-Holds}
use oneplog.Snapshot.Format.{Printer}
use oneplog.RingBuffer.Slot.{WfcState}
use oneplog.RingBuffer.State.{Ring, new_ring, block, fresh_cache}
use oneplog.RingBuffer.Inv.{IsValid, contents, new_ring-IsValid, filled, filled-IsValid}
use oneplog.Logger.Entry.{LogEntry, new_release_entry}
use oneplog.Pipeline.Forward.{Turn, drain}
use oneplog.Pipeline.Message.{IsPortable, forward_all, message}
use oneplog.Pipeline.Drain.{Moved, drain-delivers}

abbrev digits : ℕ → List ℕ
digits v = (48 + v) ∷ []

abbrev pub printer : Printer
printer = record {
  print_int32 = digits;
  print_int64 = digits;
  print_uint32 = digits;
  print_uint64 = digits;
  print_float = digits;
  print_double = digits;
  print_pointer = digits;
}

abbrev pub blank : ℕ → ℕ
blank i = 0

-- At 1000 stands "a{}".
abbrev pub memory : ℕ → ℕ
memory i = if i == 1000 then 97 else if i == 1001 then 123 else if i == 1002 then 125 else 0

abbrev args : List Arg
args = view_arg 1000 3 ∷ int32_arg 5 ∷ []

abbrev captured : Snapshot
captured = (capture args (new_snapshot blank)).1

captured-Holds : Holds captured args
unfolding new_snapshot le_bytes
captured-Holds = (capture-Holds args (new_snapshot blank) [] (new_snapshot-Holds blank)).1

abbrev pub entry : LogEntry
entry = record { timestamp = 7; thread_id = 1; process_id = 0; level = info; snapshot = captured }

pub entry-IsPortable : IsPortable memory entry
unfolding read le_bytes
entry-IsPortable = record {
  format = view_arg 1000 3;
  args = int32_arg 5 ∷ [];
  holds = captured-Holds;
  typed = ((omega arith, omega arith), (omega arith, tt));
  safe = (inl (omega arith), (tt, tt));
  text = omega arith;
  fits = omega arith;
}

abbrev pub no_entry : Ring LogEntry
no_entry = new_ring (new_release_entry blank) true 4 block

pub no_entry-IsValid : IsValid no_entry
no_entry-IsValid = (new_ring-IsValid (new_release_entry blank) true 4 block (omega arith)).0

abbrev pub one_entry : Ring LogEntry
one_entry = filled no_entry entry WfcState.wfc_none

pub one_entry-IsValid : IsValid one_entry × (contents one_entry ≡ entry ∷ [])
unfolding new_ring
one_entry-IsValid =
    filled-IsValid entry WfcState.wfc_none no_entry-IsValid (omega arith) (omega arith)

abbrev pub turns : List Turn
turns =
    record { junk = blank; others = λ q. q; sched = [] }
    ∷ record { junk = blank; others = λ q. q; sched = [] }
    ∷ []

-- The other process has nothing at the address.
drain-delivers_example :
    Moved memory 42 true true fresh_cache no_entry
      (forward_all memory 42 turns (contents one_entry))
      (drain memory 42 true true turns fresh_cache one_entry (some no_entry))
    × (map (message printer blank) (forward_all memory 42 turns (contents one_entry))
        ≡ map (message printer memory) (contents one_entry))
unfolding new_ring
drain-delivers_example =
    drain-delivers memory 42 true true printer blank turns fresh_cache one_entry no_entry
      one_entry-IsValid.0 no_entry-IsValid refl (omega arith) (omega arith) (omega arith)
      (entry-IsPortable, tt)
