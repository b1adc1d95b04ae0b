-- ===== src/RingBuffer/Wfc.antt =====
-- Entries pushed with WFC (wait for completion): `TryPushWFC`, the two ways to pop and complete
-- such an entry, and `WaitForCompletion`.
use oneplog.Prelude.{
  ℕ, ◌+◌, ◌-◌, ◌%◌, ◌<◌, ◌≡◌, refl, ◌∙◌, ap, Bool, true, Option, some, List, [], ◌∷◌, ◌++◌, arith,
  ℤ, pos, update-update,
}
use native.Mathlib.Nat.{mod-lt}
use oneplog.RingBuffer.Slot
use oneplog.RingBuffer.Slot.{SlotState, WfcState, is_wfc_completed}
use oneplog.RingBuffer.State.{Ring, Cache, size_mod, notify_consumer_if_waiting}
use oneplog.RingBuffer.Acquire.{Schedule, acquire_slot, acquire_slot_small_queue}
use oneplog.RingBuffer.Push.{try_push_wfc}
use oneplog.RingBuffer.Pop.{
  try_pop, try_pop_for_wfc, mark_wfc_complete, wait_for_completion, get_wfc_state,
}
use oneplog.RingBuffer.Inv.{IsValid, contents, filled, filled-IsValid}
use oneplog.RingBuffer.Claim.{small_loop-room}
use oneplog.RingBuffer.PushSmall.{IsSmall, notify-IsValid, notify-eq}
use oneplog.RingBuffer.PopRefines.{try_pop-ready, popped}

module _ {A : Type 0} where
  -- `TryPopForWFC`, then `MarkWFCComplete` on the slot that it returned, is `TryPop`.
  pub pop_for_wfc-then-mark :
      (shadow : Bool) (r : Ring A)
      → IsValid r
      → let (out, slot, r') = try_pop_for_wfc shadow r in
        (out, mark_wfc_complete slot r') ≡ try_pop true shadow r
  unfolding try_pop_for_wfc try_pop mark_wfc_complete Slot.complete_read Slot.complete_wfc
      Slot.try_start_read
  pop_for_wfc-then-mark shadow r v = ground (arith, mod-lt r.tail v.cap_pos)

  pop_for_wfc-slot :
      (shadow : Bool) {r : Ring A}
      → IsValid r
      → r.tail < r.head
      → (r.slots (r.tail % r.capacity)).wfc ≡ WfcState.wfc_enabled
      → (try_pop_for_wfc shadow r).1 ≡ pos (r.tail % r.capacity)
  unfolding try_pop_for_wfc
  pop_for_wfc-slot shadow {r} v h e =
      ground
        (arith, v.live, v.ready r.tail, Slot.try_start_read-ready (r.slots (r.tail % r.capacity)))

  pub push_wfc-room :
      (shadow : Bool) (o : Ring A → Ring A) (sched : Schedule A) (x : A) (c : Cache) {r : Ring A}
      → IsValid r
      → IsSmall shadow r
      → r.head - r.tail < r.capacity
      → try_push_wfc shadow (o ∷ sched) x c r
        ≡ some (
          pos (r.head % r.capacity),
          c,
          notify_consumer_if_waiting (filled r x WfcState.wfc_enabled),
        )
  unfolding try_push_wfc acquire_slot acquire_slot_small_queue Slot.commit Slot.enable_wfc
  push_wfc-room shadow o sched x c {r} v s h = ground (
    arith,
    small_loop-room true true o sched 0 v h,
    v.live,
    update-update r.slots (r.head % r.capacity)
        (record (r.slots (r.head % r.capacity)) { state = SlotState.writing })
        (record { state = SlotState.ready; wfc = WfcState.wfc_enabled }),
  )

  -- What `TryPushWFC` has done: it returned the entry's slot, whose completion is now awaited.
  pub record PushedWfc (r : Ring A) (c : Cache) (x : A) (out : Option (ℤ × Cache × Ring A))
      : Type 0 where
    pub slot : ℕ
    pub after : Ring A
    pub returned : out ≡ some (pos slot, c, after)
    pub valid : IsValid after
    pub in_range : slot < after.capacity
    pub queue : contents after ≡ contents r ++ (x ∷ [])
    pub awaited : get_wfc_state (pos slot) after ≡ WfcState.wfc_enabled
    pub newest : slot ≡ r.head % r.capacity

  -- On a valid ring with room `TryPushWFC` appends the entry, returns the slot that holds it, and
  -- marks that slot as awaiting completion.
  pub try_push_wfc_appends :
      (shadow : Bool) (o : Ring A → Ring A) (sched : Schedule A) (x : A) (c : Cache) (r : Ring A)
      → IsValid r
      → IsSmall shadow r
      → r.head - r.tail < r.capacity
      → r.head + 1 < size_mod
      → PushedWfc r c x (try_push_wfc shadow (o ∷ sched) x c r)
  unfolding get_wfc_state
  try_push_wfc_appends shadow o sched x c r v s h l =
      let f = filled-IsValid x WfcState.wfc_enabled v h l in
      let n = notify-IsValid f.0 in
      let same = notify-eq (filled r x WfcState.wfc_enabled) in
      let lt = mod-lt r.head v.cap_pos in
      record {
        slot = r.head % r.capacity;
        after = notify_consumer_if_waiting (filled r x WfcState.wfc_enabled);
        returned = push_wfc-room shadow o sched x c v s h;
        valid = n.0;
        in_range = rw same lt;
        queue = n.1 ∙ f.1;
        awaited = rw same (ground (arith, v.live, lt));
        newest = refl;
      }

  pub wait-completed :
      (rounds : List (Ring A → Ring A)) (i : ℕ) (r : Ring A)
      → r.live ≡ true
      → i < r.capacity
      → (r.slots i).wfc ≡ WfcState.wfc_completed
      → wait_for_completion (pos i) rounds r ≡ (true, r)
  unfolding wait_for_completion
  wait-completed [] i r v h e = ground arith
  wait-completed (o ∷ rounds) i r v h e = ground arith

  -- On a valid ring whose oldest entry awaits completion, `TryPop` takes that entry and completes
  -- its slot: a `WaitForCompletion` on the slot then returns true without waiting, whatever
  -- its deadline, and so it does after `TryPopForWFC` and `MarkWFCComplete`.
  pub try_pop-completes :
      (shadow : Bool) (rounds : List (Ring A → Ring A)) (r : Ring A)
      → IsValid r
      → r.tail < r.head
      → (r.slots (r.tail % r.capacity)).wfc ≡ WfcState.wfc_enabled
      → let after = (try_pop true shadow r).1 in
        let (out, slot, r') = try_pop_for_wfc shadow r in
        (wait_for_completion (pos (r.tail % r.capacity)) rounds after ≡ (true, after))
        × (slot ≡ pos (r.tail % r.capacity))
        × (wait_for_completion slot rounds (mark_wfc_complete slot r') ≡ (true, after))
  try_pop-completes shadow rounds r v h e =
      let done : wait_for_completion (pos (r.tail % r.capacity)) rounds (try_pop true shadow r).1
          ≡ (true, (try_pop true shadow r).1) =
        rw (try_pop-ready true shadow v h) (
          wait-completed rounds (r.tail % r.capacity) (popped true shadow r) v.live
            (mod-lt r.tail v.cap_pos) (ground arith)) in
      let named = pop_for_wfc-slot shadow v h e in
      (done, named, rw (ap (λ t. t.1) (pop_for_wfc-then-mark shadow r v), named) done)
