-- ===== src/Pipeline/Forward.antt =====
-- `ConvertPointers`, `AddProcessId`, `ProcessEntry` and the loop at the end of `ThreadFunc`
-- (include/oneplog/internal/pipeline_thread.hpp).
use oneplog.Prelude.{ℕ, Bool, Option, none, some, List, [], ◌∷◌}
use oneplog.Snapshot.Convert.{convert_pointers_to_data}
use oneplog.RingBuffer.State.{Ring, Cache}
use oneplog.RingBuffer.Acquire.{Schedule}
use oneplog.RingBuffer.Push.{try_push}
use oneplog.RingBuffer.Pop.{try_pop}
use oneplog.RingBuffer.Wait.{notify_consumer}
use oneplog.Logger.Entry.{LogEntry}

-- One entry's turn: what the temporary buffer of the conversion holds before, and what the other
-- processes do to the shared ring while the entry is pushed.
pub record Turn : Type 0 where
  pub junk : ℕ → ℕ
  pub others : Ring LogEntry → Ring LogEntry
  pub sched : Schedule LogEntry

-- The memory of the process, and its id.
module _ (mem : ℕ → ℕ) (pid : ℕ) where
  unfoldable pub convert_pointers : (ℕ → ℕ) → LogEntry → LogEntry
  convert_pointers junk e = record e { snapshot = convert_pointers_to_data mem junk e.snapshot }

  unfoldable pub add_process_id : LogEntry → LogEntry
  add_process_id e = record e { process_id = pid }

  unfoldable pub forward : Turn → LogEntry → LogEntry
  forward t e = add_process_id (convert_pointers t.junk e)

  module _ (wfc shadow : Bool) where
    -- `ProcessEntry`: what `TryPush` returns is not looked at.
    unfoldable pub process_entry :
        Turn → LogEntry → Cache → Option (Ring LogEntry) → Option (Cache × Option (Ring LogEntry))
    process_entry t e c none = some (c, none)
    process_entry t e c (some q) =
        elim (try_push wfc shadow (t.others ∷ t.sched) (forward t e) c q) [
          | none ↦ none
          | some (ok, c', q') ↦ some (c', some (notify_consumer q'))
        ]

    -- `while (TryPop(entry)) ProcessEntry(entry)`, each element of the list one round; none if the
    -- rounds given do not suffice.
    unfoldable pub drain :
        List Turn
        → Cache
        → Ring LogEntry
        → Option (Ring LogEntry)
        → Option (Ring LogEntry × Cache × Option (Ring LogEntry))
    drain [] c heap shared = none
    drain (t ∷ turns) c heap shared =
        let (out, heap') = try_pop wfc shadow heap in
        elim out [
          | none ↦ some (heap', c, shared)
          | some e ↦ elim (process_entry t e c shared) [
            | none ↦ none
            | some (c', shared') ↦ drain turns c' heap' shared'
          ]
        ]
