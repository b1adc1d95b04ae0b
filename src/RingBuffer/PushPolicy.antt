-- ===== src/RingBuffer/PushPolicy.antt =====
-- `TryPush` through `AcquireSlotSmallQueue` under the two dropping policies, against the bounded
-- queue.
use oneplog.Prelude.{
  ℕ, ◌+◌, ◌-◌, ◌%◌, ◌≤◌, ◌<◌, ◌≡◌, refl, ◌∙◌, ap, sym, Bool, true, false, ◌&&◌, Option, some, List,
  [], ◌∷◌, ◌++◌, arith, leb, if◌then◌else◌, length, drop, Bool-cases, inl, inr,
}
use oneplog.RingBuffer.Slot
use oneplog.RingBuffer.Slot.{SlotStatus, SlotState, WfcState}
use oneplog.RingBuffer.State.{
  Ring, Cache, drop_newest, drop_oldest, size_mod, add_size, count_drop, notify_consumer_if_waiting,
}
use oneplog.RingBuffer.Acquire.{
  Schedule, small_round, small_loop, SmallRound, acquire_slot, acquire_slot_small_queue,
  drop_oldest_entry,
}
use oneplog.RingBuffer.Push.{try_push}
use oneplog.RingBuffer.Inv.{
  IsValid, contents, length-contents, filled, filled-IsValid, released, released-IsValid,
  reframe-IsValid,
}
use oneplog.RingBuffer.PushSmall.{IsSmall, try_push-room, notify-IsValid, notify-eq}
use oneplog.RingBuffer.Queue.{push_newest, push_oldest}

module _ {A : Type 0} where
  -- What a push has done: its verdict, the queue that is left, and the number of entries dropped.
  pub record Pushed (r : Ring A) (c : Cache) (spec : Bool × List A) (drops : ℕ)
      (out : Option (Bool × Cache × Ring A)) : Type 0 where
    pub after : Ring A
    pub returned : out ≡ some (spec.0, c, after)
    pub valid : IsValid after
    pub queue : contents after ≡ spec.1
    pub counted : after.dropped_count ≡ drops
    pub same_capacity : after.capacity ≡ r.capacity

  pub Pushed-room :
      (wfc shadow : Bool) (o : Ring A → Ring A) (sched : Schedule A) (x : A) (c : Cache)
      {r : Ring A}
      → IsValid r
      → IsSmall shadow r
      → r.head - r.tail < r.capacity
      → r.head + 1 < size_mod
      → Pushed r c
          (true, contents r ++ (x ∷ []))
          r.dropped_count
          (try_push wfc shadow (o ∷ sched) x c r)
  Pushed-room wfc shadow o sched x c {r} v s h l =
      let w = (r.slots (r.head % r.capacity)).wfc in
      let f = filled-IsValid x w v h l in
      let n = notify-IsValid f.0 in
      record {
        after = notify_consumer_if_waiting (filled r x w);
        returned = try_push-room wfc shadow o sched x c v s h;
        valid = n.0;
        queue = n.1 ∙ f.1;
        counted = ap (λ (q : Ring A). q.dropped_count) (notify-eq (filled r x w));
        same_capacity = ap (λ (q : Ring A). q.capacity) (notify-eq (filled r x w));
      }

  try_push-full_newest :
      (wfc shadow : Bool) (o : Ring A → Ring A) (sched : Schedule A) (x : A) (c : Cache)
      {r : Ring A}
      → IsValid r
      → IsSmall shadow r
      → r.policy ≡ drop_newest
      → r.capacity ≤ r.head - r.tail
      → try_push wfc shadow (o ∷ sched) x c r ≡ some (false, c, count_drop r)
  unfolding try_push acquire_slot acquire_slot_small_queue small_loop small_round
  try_push-full_newest wfc shadow o sched x c {r} v s p h = ground arith

  -- On a valid ring under DropNewest that takes the small queue's path (no shadow tail, or at most
  -- 32 places), while the head does not wrap around, `TryPush` returns in its first round, whatever
  -- the other threads do later. It does what the bounded queue that rejects the new entry does: below
  -- the capacity the entry is appended, at the capacity the contents stay and one drop is counted.
  pub try_push-drop_newest :
      (wfc shadow : Bool) (o : Ring A → Ring A) (sched : Schedule A) (x : A) (c : Cache)
      (r : Ring A)
      → IsValid r
      → IsSmall shadow r
      → r.policy ≡ drop_newest
      → r.head + 1 < size_mod
      → Pushed r c
          (push_newest r.capacity (contents r) x)
          (if leb r.capacity (length (contents r))
            then add_size r.dropped_count 1
            else r.dropped_count)
          (try_push wfc shadow (o ∷ sched) x c r)
  try_push-drop_newest wfc shadow o sched x c r v s p l =
      elim (Bool-cases (leb r.capacity (r.head - r.tail))) [
        | inl full ↦
            rw (length-contents r, full)
              (record {
                after = count_drop r;
                returned = try_push-full_newest wfc shadow o sched x c v s p (ground arith);
                valid =
                    reframe-IsValid r.shadow_tail (add_size r.dropped_count 1) r.notifications v
                      v.behind;
                queue = refl;
                counted = refl;
                same_capacity = refl;
              })
        | inr room ↦
            rw (length-contents r, room) (Pushed-room wfc shadow o sched x c v s (ground arith) l)
      ]

  -- `DropOldestEntry` on a ring that holds an entry.
  drop_oldest_entry-ready :
      (wfc : Bool) {r : Ring A}
      → IsValid r
      → r.tail < r.head
      → (wfc && Slot.is_wfc_enabled (r.slots (r.tail % r.capacity))) ≡ false
      → drop_oldest_entry wfc r
        ≡ (true, count_drop (released r (r.slots (r.tail % r.capacity)).wfc))
  unfolding drop_oldest_entry Slot.complete_read
  drop_oldest_entry-ready wfc {r} v h e =
      ground (arith, Slot.try_start_read-ready (r.slots (r.tail % r.capacity)), v.ready r.tail)

  small_round-full_oldest :
      (wfc : Bool) (spins : ℕ) {r : Ring A}
      → IsValid r
      → r.policy ≡ drop_oldest
      → r.capacity ≤ r.head - r.tail
      → (wfc && Slot.is_wfc_enabled (r.slots (r.tail % r.capacity))) ≡ false
      → small_round wfc false r.head spins r
        ≡ SmallRound.retry r.head spins
            (count_drop (released r (r.slots (r.tail % r.capacity)).wfc))
  unfolding small_round
  small_round-full_oldest wfc spins {r} v p h e =
      ground (arith, drop_oldest_entry-ready wfc v (omega (arith, v.cap_pos)) e)

  -- Where the oldest entry gives way, the push goes on as on the ring without it.
  try_push-full_oldest :
      (wfc shadow : Bool) (o : Ring A → Ring A) (sched : Schedule A) (x : A) (c : Cache)
      {r : Ring A}
      → IsValid r
      → IsSmall shadow r
      → r.policy ≡ drop_oldest
      → r.capacity ≤ r.head - r.tail
      → (wfc && Slot.is_wfc_enabled (r.slots (r.tail % r.capacity))) ≡ false
      → try_push wfc shadow ((λ q. q) ∷ o ∷ sched) x c r
        ≡ try_push wfc shadow
            (o ∷ sched)
            x
            c
            (count_drop (released r (r.slots (r.tail % r.capacity)).wfc))
  unfolding try_push acquire_slot acquire_slot_small_queue small_loop
  try_push-full_oldest wfc shadow o sched x c {r} v s p h e =
      ground (arith, small_round-full_oldest wfc 0 v p h e, v.live)

  -- On a valid ring under DropOldest that takes the small queue's path (no shadow tail, or at most
  -- 32 places), while the head does not wrap around, if the oldest entry awaits no completion and no
  -- other thread acts before the second round, `TryPush` returns true and does what the bounded queue
  -- that gives up its oldest entry does: at the capacity the oldest entry goes, and one drop is
  -- counted.
  pub try_push-drop_oldest :
      (wfc shadow : Bool) (o : Ring A → Ring A) (sched : Schedule A) (x : A) (c : Cache)
      (r : Ring A)
      → IsValid r
      → IsSmall shadow r
      → r.policy ≡ drop_oldest
      → r.head + 1 < size_mod
      → (wfc && Slot.is_wfc_enabled (r.slots (r.tail % r.capacity))) ≡ false
      → Pushed r c
          (push_oldest r.capacity (contents r) x)
          (if leb r.capacity (length (contents r))
            then add_size r.dropped_count 1
            else r.dropped_count)
          (try_push wfc shadow ((λ q. q) ∷ o ∷ sched) x c r)
  try_push-drop_oldest wfc shadow o sched x c r v s p l e =
      elim (Bool-cases (leb r.capacity (r.head - r.tail))) [
        | inl full ↦
            let w = (r.slots (r.tail % r.capacity)).wfc in
            let rel = released-IsValid w v (ground (arith, v.cap_pos)) in
            let r' = count_drop (released r w) in
            let v' : IsValid r' =
              reframe-IsValid r.shadow_tail (add_size r.dropped_count 1) r.notifications rel.0
                (rel.0).behind in
            let done = Pushed-room wfc shadow o sched x c v' s (ground arith) l in
            rw (length-contents r, full)
              (record {
                after = done.after;
                returned =
                    try_push-full_oldest wfc shadow o sched x c v s p (ground arith) e
                    ∙ done.returned;
                valid = done.valid;
                queue = done.queue ∙ ap (λ q. drop 1 q ++ (x ∷ [])) (sym rel.1);
                counted = done.counted;
                same_capacity = done.same_capacity;
              })
        | inr room ↦
            rw (length-contents r, room)
              (Pushed-room wfc shadow (λ q. q) (o ∷ sched) x c v s (ground arith) l)
      ]
