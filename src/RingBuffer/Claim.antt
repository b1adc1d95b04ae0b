-- ===== src/RingBuffer/Claim.antt =====
-- The loops of `AcquireSlot` where there is room for one more entry.
use oneplog.Prelude.{ℕ, ◌-◌, ◌%◌, ◌<◌, ◌≡◌, Bool, some, [], ◌∷◌, arith, pos}
use oneplog.RingBuffer.Slot
use oneplog.RingBuffer.Slot.{SlotStatus, SlotState}
use oneplog.RingBuffer.State.{Ring, add_size, set_slot}
use oneplog.RingBuffer.Acquire.{Schedule, wait_slot, small_round, small_loop, SmallRound}
use oneplog.RingBuffer.Inv.{IsValid}

module _ {A : Type 0} where
  -- The state once slot `head % capacity` has been claimed and acquired.
  abbrev pub claim : Ring A → Ring A
  claim r =
      set_slot (record r { head = add_size r.head 1 }) (r.head % r.capacity)
        (record (r.slots (r.head % r.capacity)) { state = SlotState.writing })

  pub wait_slot-empty :
      (sched : Schedule A) (i : ℕ) (r : Ring A)
      → (r.slots i).state ≡ SlotState.empty
      → wait_slot i sched r ≡ some (set_slot r i (record (r.slots i) { state = SlotState.writing }))
  unfolding wait_slot
  wait_slot-empty [] i r h = rw (Slot.try_acquire-empty (r.slots i) h)
  wait_slot-empty (o ∷ sched) i r h = rw (Slot.try_acquire-empty (r.slots i) h)

  small_round-room :
      (wfc is_wfc : Bool) (spins : ℕ) {r : Ring A}
      → IsValid r
      → r.head - r.tail < r.capacity
      → small_round wfc is_wfc r.head spins r
        ≡ SmallRound.claimed (r.head % r.capacity) (record r { head = add_size r.head 1 })
  unfolding small_round
  small_round-room wfc is_wfc spins {r} v h = ground arith

  pub small_loop-room :
      (wfc is_wfc : Bool) (o : Ring A → Ring A) (sched : Schedule A) (spins : ℕ) {r : Ring A}
      → IsValid r
      → r.head - r.tail < r.capacity
      → small_loop wfc is_wfc (o ∷ sched) r.head spins r ≡ some (pos (r.head % r.capacity), claim r)
  unfolding small_loop
  small_loop-room wfc is_wfc o sched spins {r} v h = ground (
    arith,
    small_round-room wfc is_wfc spins v h,
    wait_slot-empty sched (r.head % r.capacity) (record r { head = add_size r.head 1 })
        (v.free r.head (omega arith) (omega arith)),
  )
