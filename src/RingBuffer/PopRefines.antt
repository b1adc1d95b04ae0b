-- ===== src/RingBuffer/PopRefines.antt =====
-- `TryPop` and `TryPopBatch` against the FIFO.
use oneplog.Prelude.{
  ℕ, suc, zero, ◌-◌, ◌%◌, ◌<◌, ◌≡◌, refl, ap, sym, Bool, ◌&&◌, none, some, [], ◌∷◌, arith, inl, inr,
  Bool-cases, if◌then◌else◌, window, take, drop, ltb, ◌==◌,
}
use oneplog.RingBuffer.Slot
use oneplog.RingBuffer.Slot.{SlotState, WfcState}
use oneplog.RingBuffer.State.{Ring, add_size, shadow_tail_update_interval}
use oneplog.RingBuffer.Pop.{try_pop, try_pop_batch}
use oneplog.RingBuffer.Inv.{IsValid, contents, released, released-IsValid, reframe-IsValid}
use oneplog.RingBuffer.Queue.{poll}

-- What `TryPop` leaves in the WFC word of the slot.
abbrev pub wfc_after : Bool → WfcState → WfcState
wfc_after wfc w = if wfc && Slot.wfc_is_enabled w then WfcState.wfc_completed else w

-- What it leaves in the shadow tail.
abbrev pub shadow_after : Bool → ℕ → ℕ → ℕ
shadow_after shadow old t = if shadow && (t % shadow_tail_update_interval) == 0 then t else old

module _ {A : Type 0} where
  pub contents-empty : (r : Ring A) → r.head ≡ r.tail → contents r ≡ []
  contents-empty r e =
      let none_left : r.head - r.tail ≡ 0 = omega arith in
      ap (window r.buffer r.capacity r.tail) none_left

  pub try_pop-empty :
      (wfc shadow : Bool) {r : Ring A}
      → IsValid r
      → r.head ≡ r.tail
      → try_pop wfc shadow r ≡ (none, r)
  unfolding try_pop
  try_pop-empty wfc shadow {r} v e =
      ground
        (arith, v.live, v.free r.tail, Slot.try_start_read-empty (r.slots (r.tail % r.capacity)))

  abbrev pub popped : Bool → Bool → Ring A → Ring A
  popped wfc shadow r = record (released r (wfc_after wfc (r.slots (r.tail % r.capacity)).wfc)) {
    shadow_tail = shadow_after shadow r.shadow_tail (add_size r.tail 1);
  }

  pub try_pop-ready :
      (wfc shadow : Bool) {r : Ring A}
      → IsValid r
      → r.tail < r.head
      → try_pop wfc shadow r ≡ (some (r.buffer (r.tail % r.capacity)), popped wfc shadow r)
  unfolding try_pop Slot.complete_read Slot.complete_wfc
  try_pop-ready wfc shadow {r} v h =
      ground
        (arith, v.live, v.ready r.tail, Slot.try_start_read-ready (r.slots (r.tail % r.capacity)))

  pub popped-IsValid :
      (wfc shadow : Bool) {r : Ring A} → IsValid r → r.tail < r.head → IsValid (popped wfc shadow r)
  popped-IsValid wfc shadow {r} v h =
      let w = wfc_after wfc (r.slots (r.tail % r.capacity)).wfc in
      let rel = (released-IsValid w v h).0 in
      reframe-IsValid (shadow_after shadow r.shadow_tail (add_size r.tail 1)) r.dropped_count
        r.notifications rel (ground (arith, rel.behind))

  -- `TryPop` on a valid ring takes the oldest entry, or reports that there is none; the ring stays
  -- valid, and neither `head`, nor the drop counter, nor the capacity changes.
  pub try_pop_refines :
      (wfc shadow : Bool) (r : Ring A)
      → IsValid r
      → let (out, r') = try_pop wfc shadow r in
        ((out, contents r') ≡ poll (contents r))
        × IsValid r'
        × (r'.head ≡ r.head)
        × (r'.dropped_count ≡ r.dropped_count)
        × (r'.capacity ≡ r.capacity)
  try_pop_refines wfc shadow r v = elim (Bool-cases (ltb r.tail r.head)) [
    | inl some_left ↦
        let h : r.tail < r.head = ground arith in
        let rel = released-IsValid (wfc_after wfc (r.slots (r.tail % r.capacity)).wfc) v h in
        rw (try_pop-ready wfc shadow v h)
          (sym (ap poll rel.1), popped-IsValid wfc shadow v h, refl, refl, refl)
    | inr nothing ↦
        let e : r.head ≡ r.tail = ground (arith, v.order) in
        rw (try_pop-empty wfc shadow v e) (rw (contents-empty r e) refl, v, refl, refl, refl)
  ]

  batch-next :
      (wfc shadow : Bool) (n : ℕ) (r r' : Ring A) (x : A)
      → try_pop wfc shadow r ≡ (some x, r')
      → try_pop_batch wfc shadow (suc n) r
        ≡ (x ∷ (try_pop_batch wfc shadow n r').0, (try_pop_batch wfc shadow n r').1)
  unfolding try_pop_batch
  batch-next wfc shadow n r r' x e = ground arith

  batch-stop :
      (wfc shadow : Bool) (n : ℕ) (r r' : Ring A)
      → try_pop wfc shadow r ≡ (none, r')
      → try_pop_batch wfc shadow (suc n) r ≡ ([], r')
  unfolding try_pop_batch
  batch-stop wfc shadow n r r' e = ground arith

  -- `TryPopBatch` on a valid ring takes the oldest entries, in order, up to the number asked for.
  pub try_pop_batch_refines :
      (wfc shadow : Bool) (n : ℕ) (r : Ring A)
      → IsValid r
      → let (out, r') = try_pop_batch wfc shadow n r in
        (out ≡ take n (contents r)) × (contents r' ≡ drop n (contents r)) × IsValid r'
  unfolding try_pop_batch
  try_pop_batch_refines wfc shadow zero r v = (refl, refl, v)
  try_pop_batch_refines wfc shadow (suc n) r v = elim (Bool-cases (ltb r.tail r.head)) [
    | inl some_left ↦
        let h : r.tail < r.head = ground arith in
        let rel = released-IsValid (wfc_after wfc (r.slots (r.tail % r.capacity)).wfc) v h in
        let ih =
          try_pop_batch_refines wfc shadow n (popped wfc shadow r)
            (popped-IsValid wfc shadow v h) in
        rw (batch-next wfc shadow n r _ _ (try_pop-ready wfc shadow v h), rel.1)
          (ap (λ l. r.buffer (r.tail % r.capacity) ∷ l) ih.0, ih.1, ih.2)
    | inr nothing ↦
        let e : r.head ≡ r.tail = ground (arith, v.order) in
        rw (batch-stop wfc shadow n r r (try_pop-empty wfc shadow v e), contents-empty r e)
          (refl, refl, v)
  ]
