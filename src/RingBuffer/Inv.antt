-- ===== src/RingBuffer/Inv.antt =====
-- The ring between calls: every claimed slot has been committed, and no read is under way.
use oneplog.Prelude.{
  ℕ, suc, ◌+◌, ◌-◌, ◌%◌, ◌≤◌, ◌<◌, ◌≡◌, refl, Bool, true, List, [], ◌∷◌, ◌++◌, arith, update,
  mod-ne, window-push, window, length, length-window,
}
use oneplog.RingBuffer.Slot
use oneplog.RingBuffer.Slot.{SlotState, WfcState}
use oneplog.RingBuffer.State.{Ring, QueueFullPolicy, size_mod, add_size, new_ring}

module _ {A : Type 0} where
  -- `head` stays below 2 ^ 64: fewer than 2 ^ 64 slots have been claimed since the start.
  pub record IsValid (r : Ring A) : Type 0 where
    pub live : r.live ≡ true
    pub cap_pos : 0 < r.capacity
    pub order : r.tail ≤ r.head
    pub room : r.head ≤ r.tail + r.capacity
    pub fits : r.head < size_mod
    pub behind : r.shadow_tail ≤ r.tail
    pub ready :
        (k : ℕ) → r.tail ≤ k → k < r.head → (r.slots (k % r.capacity)).state ≡ SlotState.ready
    pub free :
        (k : ℕ)
        → r.head ≤ k
        → k < r.tail + r.capacity
        → (r.slots (k % r.capacity)).state ≡ SlotState.empty

  -- The entries in the ring, oldest first.
  abbrev pub contents : Ring A → List A
  contents r = window r.buffer r.capacity r.tail (r.head - r.tail)

  pub length-contents : (r : Ring A) → length (contents r) ≡ r.head - r.tail
  length-contents r = length-window r.buffer r.capacity r.tail (r.head - r.tail)

  pub new_ring-IsValid :
      (d : A) (fd : Bool) (cap : ℕ) (pol : QueueFullPolicy)
      → 0 < cap
      → IsValid (new_ring d fd cap pol) × (contents (new_ring d fd cap pol) ≡ [])
  unfolding new_ring Slot.reset
  new_ring-IsValid d fd cap pol h = (
    record {
      live = refl;
      cap_pos = h;
      order = omega arith;
      room = omega arith;
      fits = omega arith;
      behind = omega arith;
      ready = λ k a b. absurd (omega arith);
      free = λ k a b. ground arith;
    },
    refl,
  )

  -- What else the ring records does not matter to the invariant.
  pub reframe-IsValid :
      {r : Ring A} (shadow dropped notified : ℕ)
      → IsValid r
      → shadow ≤ r.tail
      → IsValid
          (record r { shadow_tail = shadow; dropped_count = dropped; notifications = notified })
  reframe-IsValid shadow dropped notified v h = record {
    live = v.live;
    cap_pos = v.cap_pos;
    order = v.order;
    room = v.room;
    fits = v.fits;
    behind = h;
    ready = v.ready;
    free = v.free;
  }

  -- The state once the next slot holds `x`.
  abbrev pub filled : Ring A → A → WfcState → Ring A
  filled r x w = record r {
    head = add_size r.head 1;
    buffer = update r.buffer (r.head % r.capacity) x;
    slots = update r.slots (r.head % r.capacity) (record { state = SlotState.ready; wfc = w });
  }

  pub filled-IsValid :
      {r : Ring A} (x : A) (w : WfcState)
      → IsValid r
      → r.head - r.tail < r.capacity
      → r.head + 1 < size_mod
      → IsValid (filled r x w) × (contents (filled r x w) ≡ contents r ++ (x ∷ []))
  filled-IsValid {r} x w v h l = (
    record {
      live = v.live;
      cap_pos = v.cap_pos;
      order = omega arith;
      room = omega arith;
      fits = omega arith;
      behind = v.behind;
      ready = λ k a b. ground (arith, v.ready k a, mod-ne r.capacity k r.head);
      free = λ k a b. ground (arith, v.free k, mod-ne r.capacity r.head k);
    },
    rw grow (window-push r.buffer r.capacity r.tail r.head (r.head - r.tail) x (omega arith) h),
  )
    where
      grow : (add_size r.head 1 - r.tail) ≡ suc (r.head - r.tail)
      grow = omega arith

  -- The state once the oldest slot is empty again.
  abbrev pub released : Ring A → WfcState → Ring A
  released r w = record r {
    tail = add_size r.tail 1;
    slots = update r.slots (r.tail % r.capacity) (record { state = SlotState.empty; wfc = w });
  }

  pub released-IsValid :
      {r : Ring A} (w : WfcState)
      → IsValid r
      → r.tail < r.head
      → IsValid (released r w)
        × (contents r ≡ r.buffer (r.tail % r.capacity) ∷ contents (released r w))
  released-IsValid {r} w v h = (
    record {
      live = v.live;
      cap_pos = v.cap_pos;
      order = omega arith;
      room = omega arith;
      fits = v.fits;
      behind = omega arith;
      ready = λ k a b. ground (arith, v.ready k, mod-ne r.capacity r.tail k);
      free = λ k a b. ground (arith, v.free k a, mod-ne r.capacity r.tail k, wrap k);
    },
    rw (shrink, next) refl,
  )
    where
      shrink : r.head - r.tail ≡ suc (r.head - add_size r.tail 1)
      shrink = omega arith

      next : add_size r.tail 1 ≡ r.tail + 1
      next = omega arith

      wrap : (k : ℕ) → k ≡ r.tail + r.capacity → k % r.capacity ≡ r.tail % r.capacity
      wrap k e = rw e (grind arith)
