-- ===== src/Logger/Worker.antt =====
-- `ProcessEntry`, `DrainRemainingEntries` and `WorkerLoop` (include/oneplog/logger.hpp).
use oneplog.Prelude.{
  ℕ, zero, suc, Bool, true, false, if◌then◌else◌, Option, none, some, List, ℤ, pos, negsuc,
}
use oneplog.RingBuffer.State.{Ring}
use oneplog.RingBuffer.Pop.{try_pop, try_pop_for_wfc, mark_wfc_complete}
use oneplog.Logger.Entry.{LogEntry}
use oneplog.Logger.Sinks.{World, SinkBinding, write_all_async}

-- `if (wfcSlot >= 0) MarkWFCComplete(wfcSlot)`
abbrev pub mark_if_slot : ℤ → Ring LogEntry → Ring LogEntry
mark_if_slot (negsuc n) r = r
mark_if_slot (pos i) r = mark_wfc_complete (pos i) r

module _ (bindings : List SinkBinding) (wfc shadow : Bool) where
  unfoldable pub process_entry : LogEntry → World → World
  process_entry e w = write_all_async bindings e w

  -- The body of the loops over the ring, given what the pop returned: -1 as the slot without WFC.
  -- The Boolean says whether there was an entry.
  abbrev pub finish : Option LogEntry → ℤ → Ring LogEntry → World → Bool × Ring LogEntry × World
  finish none slot r w = (false, r, w)
  finish (some e) slot r w = (true, mark_if_slot slot r, process_entry e w)

  -- One round: pop, process and, with WFC, mark.
  unfoldable pub pop_and_process : Ring LogEntry → World → Bool × Ring LogEntry × World
  pop_and_process r w =
      if wfc
      then (let (out, slot, r') = try_pop_for_wfc shadow r in finish out slot r' w)
      else (let (out, r') = try_pop false shadow r in finish out (negsuc 0) r' w)

  -- `DrainRemainingEntries`, and `DrainSharedRingBuffer` on the other ring; none if the rounds given
  -- do not suffice.
  unfoldable pub drain : ℕ → Ring LogEntry → World → Option (Ring LogEntry × World)
  drain zero r w = none
  drain (suc n) r w =
      let (had, r', w') = pop_and_process r w in
      let rest = drain n r' w' in if had then rest else some (r', w')
