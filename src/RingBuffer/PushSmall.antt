-- ===== src/RingBuffer/PushSmall.antt =====
-- `TryPush` through `AcquireSlotSmallQueue`: without the shadow tail, or at a capacity of at most
-- 32.
use oneplog.Prelude.{
  ◌-◌, ◌%◌, ◌<◌, ◌≡◌, ap, sym, subst, Bool, true, false, ◌&&◌, some, ◌∷◌, arith, pos, update-update,
  ltb,
}
use native.Mathlib.Nat.{mod-lt}
use oneplog.RingBuffer.Slot
use oneplog.RingBuffer.Slot.{SlotStatus, SlotState, WfcState}
use oneplog.RingBuffer.Wait.{notify_consumer}
use oneplog.RingBuffer.State.{
  Ring, Cache, do_notify, notify_consumer_if_waiting, shadow_tail_update_interval,
}
use oneplog.RingBuffer.Acquire.{Schedule, acquire_slot, acquire_slot_small_queue}
use oneplog.RingBuffer.Push.{commit_slot, try_push}
use oneplog.RingBuffer.Inv.{IsValid, contents, filled, reframe-IsValid}
use oneplog.RingBuffer.Claim.{claim, small_loop-room}

module _ {A : Type 0} where
  -- A notification is all that `NotifyConsumerIfWaiting` adds.
  pub notify-eq :
      (r : Ring A)
      → notify_consumer_if_waiting r
        ≡ record r { notifications = (notify_consumer_if_waiting r).notifications }
  unfolding notify_consumer_if_waiting
  notify-eq r = ground arith

  pub notify_consumer-eq :
      (r : Ring A)
      → notify_consumer r ≡ record r { notifications = (notify_consumer r).notifications }
  unfolding notify_consumer do_notify
  notify_consumer-eq r = ground arith

  pub notify-IsValid :
      {r : Ring A}
      → IsValid r
      → IsValid (notify_consumer_if_waiting r)
        × (contents (notify_consumer_if_waiting r) ≡ contents r)
  notify-IsValid {r} v = (
    subst IsValid (sym (notify-eq r)) (
        reframe-IsValid r.shadow_tail r.dropped_count (notify_consumer_if_waiting r).notifications v
          v.behind),
    ap contents (notify-eq r),
  )

  -- `AcquireSlot` chooses the small queue's loop.
  abbrev pub IsSmall : Bool → Ring A → Type 0
  IsSmall shadow r = (shadow && ltb shadow_tail_update_interval r.capacity) ≡ false

  pub commit-claim :
      {r : Ring A} (x : A)
      → IsValid r
      → commit_slot (pos (r.head % r.capacity)) x (claim r)
        ≡ filled r x (r.slots (r.head % r.capacity)).wfc
  unfolding commit_slot Slot.commit
  commit-claim {r} x v = ground (
    arith,
    mod-lt r.head v.cap_pos,
    update-update r.slots (r.head % r.capacity)
        (record (r.slots (r.head % r.capacity)) { state = SlotState.writing })
        (record (r.slots (r.head % r.capacity)) { state = SlotState.ready }),
  )

  pub try_push-room :
      (wfc shadow : Bool) (o : Ring A → Ring A) (sched : Schedule A) (x : A) (c : Cache)
      {r : Ring A}
      → IsValid r
      → IsSmall shadow r
      → r.head - r.tail < r.capacity
      → try_push wfc shadow (o ∷ sched) x c r
        ≡ some
            (true, c, notify_consumer_if_waiting (filled r x (r.slots (r.head % r.capacity)).wfc))
  unfolding try_push acquire_slot acquire_slot_small_queue
  try_push-room wfc shadow o sched x c {r} v s h =
      ground (arith, small_loop-room wfc false o sched 0 v h, commit-claim x v)
