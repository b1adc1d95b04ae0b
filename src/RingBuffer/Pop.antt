-- ===== src/RingBuffer/Pop.antt =====
-- The consumer's operations of heap_memory.hpp: `TryPop`, `TryPopForWFC`, `TryPopBatch`, the WFC
-- calls, and the status queries.
use oneplog.Prelude.{
  ℕ, zero, suc, ◌%◌, Bool, true, false, not, ◌&&◌, ◌||◌, ◌==◌, if◌then◌else◌, ltb, leb, Option,
  none, some, List, [], ◌∷◌, ℤ, pos, negsuc,
}
use oneplog.RingBuffer.Slot
use oneplog.RingBuffer.Slot.{SlotStatus, WfcState, wfc_none, is_wfc_completed}
use oneplog.RingBuffer.State.{Ring, add_size, sub_size, set_slot, shadow_tail_update_interval}

abbrev finish_read : Bool → SlotStatus → SlotStatus
finish_read wfc s =
    if wfc && Slot.is_wfc_enabled s
    then Slot.complete_wfc (Slot.complete_read s)
    else Slot.complete_read s

module _ {A : Type 0} where
  -- The end of both pops: the new tail, and the shadow tail at each multiple of the interval.
  unfoldable pub advance_tail : Bool → Ring A → Ring A
  advance_tail shadow r =
      let new_tail = add_size r.tail 1 in
      if shadow && (new_tail % shadow_tail_update_interval) == 0
      then record r { tail = new_tail; shadow_tail = new_tail }
      else record r { tail = new_tail }

  -- `TryPop`, given the template flags: the item, if there is one, and the new state.
  unfoldable pub try_pop : Bool → Bool → Ring A → Option A × Ring A
  unfolding advance_tail
  try_pop wfc shadow r =
      if not r.live
      then (none, r)
      else let i = r.tail % r.capacity in
        let (started, s) = Slot.try_start_read (r.slots i) in
        if started
        then (some (r.buffer i), advance_tail shadow (set_slot r i (finish_read wfc s)))
        else (none, r)

  -- `TryPopForWFC`: also the slot to mark as complete, or -1.
  unfoldable pub try_pop_for_wfc : Bool → Ring A → Option A × ℤ × Ring A
  unfolding advance_tail
  try_pop_for_wfc shadow r =
      if not r.live
      then (none, negsuc 0, r)
      else let i = r.tail % r.capacity in
        let (started, s) = Slot.try_start_read (r.slots i) in
        if started
        then (
          some (r.buffer i),
          (if Slot.is_wfc_enabled s then pos i else negsuc 0),
          advance_tail shadow (set_slot r i (Slot.complete_read s)),
        )
        else (none, negsuc 0, r)

  -- `TryPopBatch`: the recursion is on `maxCount - count`.
  unfoldable pub try_pop_batch : Bool → Bool → ℕ → Ring A → List A × Ring A
  try_pop_batch wfc shadow zero r = ([], r)
  try_pop_batch wfc shadow (suc n) r =
      let (popped, r') = try_pop wfc shadow r in
      elim popped [
        | none ↦ ([], r')
        | some x ↦ let (xs, r'') = try_pop_batch wfc shadow n r' in (x ∷ xs, r'')
      ]

  unfoldable pub mark_wfc_complete : ℤ → Ring A → Ring A
  mark_wfc_complete (negsuc n) r = r
  mark_wfc_complete (pos i) r =
      if r.live && ltb i r.capacity then set_slot r i (Slot.complete_wfc (r.slots i)) else r

  unfoldable pub get_wfc_state : ℤ → Ring A → WfcState
  get_wfc_state (negsuc n) r = wfc_none
  get_wfc_state (pos i) r = if not r.live || leb r.capacity i then wfc_none else (r.slots i).wfc

  -- The polling of `WaitForCompletion`: one element of the list for each round before the deadline,
  -- saying what the other threads do before the next.
  abbrev wait_completed : ℕ → List (Ring A → Ring A) → Ring A → Bool × Ring A
  wait_completed i [] r = (is_wfc_completed (r.slots i), r)
  wait_completed i (others ∷ rounds) r =
      let rest = wait_completed i rounds (others r) in
      if is_wfc_completed (r.slots i) then (true, r) else rest

  unfoldable pub wait_for_completion : ℤ → List (Ring A → Ring A) → Ring A → Bool × Ring A
  wait_for_completion (negsuc n) rounds r = (false, r)
  wait_for_completion (pos i) rounds r =
      if not r.live || leb r.capacity i then (false, r) else wait_completed i rounds r

  unfoldable pub is_empty : Ring A → Bool
  is_empty r = if not r.live then true else not (Slot.is_ready (r.slots (r.tail % r.capacity)))

  unfoldable pub is_full : Bool → Ring A → Bool
  is_full shadow r =
      if not r.live
      then false
      else if shadow && ltb shadow_tail_update_interval r.capacity
      then leb r.capacity (sub_size r.head r.shadow_tail)
      else leb r.capacity (sub_size r.head r.tail)

  unfoldable pub size : Ring A → ℕ
  size r = if not r.live then 0 else if ltb r.tail r.head then sub_size r.head r.tail else 0

  unfoldable pub approximate_size : Ring A → ℕ
  approximate_size r =
      if not r.live
      then 0
      else if ltb r.shadow_tail r.head
      then sub_size r.head r.shadow_tail
      else 0
