-- ===== src/RingBuffer/Push.antt =====
-- `CommitSlot`, `TryPush`, `TryPushWFC` (heap_memory.hpp). Moving and copying overloads store the
-- same value, so one definition stands for both.
use oneplog.Prelude.{
  ℕ, Bool, true, false, not, ◌||◌, if◌then◌else◌, leb, Option, none, some, ℤ, pos, negsuc,
}
use oneplog.RingBuffer.Slot
use oneplog.RingBuffer.State.{Ring, Cache, set_slot, set_item, notify_consumer_if_waiting}
use oneplog.RingBuffer.Acquire.{Schedule, acquire_slot}

module _ {A : Type 0} where
  abbrev commit_at : Ring A → ℕ → A → Ring A
  commit_at r i x = set_slot (set_item r i x) i (Slot.commit (r.slots i))

  unfoldable pub commit_slot : ℤ → A → Ring A → Ring A
  commit_slot (negsuc n) x r = r
  commit_slot (pos i) x r = if not r.live || leb r.capacity i then r else commit_at r i x

  abbrev push_into : ℤ → A → Ring A → Bool × Ring A
  push_into (negsuc n) x r = (false, r)
  push_into (pos i) x r = (true, notify_consumer_if_waiting (commit_slot (pos i) x r))

  -- `TryPush`; the calling thread's cache comes and goes.
  unfoldable pub try_push :
      Bool → Bool → Schedule A → A → Cache → Ring A → Option (Bool × Cache × Ring A)
  try_push wfc shadow sched x c r = elim (acquire_slot wfc shadow false sched c r) [
    | none ↦ none
    | some (slot, c', r') ↦ let (pushed, r'') = push_into slot x r' in some (pushed, c', r'')
  ]

  abbrev push_wfc_into : ℤ → A → Ring A → Ring A
  push_wfc_into (negsuc n) x r = r
  push_wfc_into (pos i) x r =
      notify_consumer_if_waiting
        (set_slot (set_item r i x) i (Slot.commit (Slot.enable_wfc (r.slots i))))

  -- `TryPushWFC`, which exists only where EnableWFC is set.
  unfoldable pub try_push_wfc : Bool → Schedule A → A → Cache → Ring A → Option (ℤ × Cache × Ring A)
  try_push_wfc shadow sched x c r = elim (acquire_slot true shadow true sched c r) [
    | none ↦ none
    | some (slot, c', r') ↦ some (slot, c', push_wfc_into slot x r')
  ]
