-- ===== src/Logger/Completion.antt =====
-- A call that waits for completion, and the worker that drains (include/oneplog/logger.hpp).
use oneplog.Prelude.{
  ℕ, zero, suc, ◌+◌, ◌-◌, ◌%◌, ◌≤◌, ◌<◌, ◌≡◌, ◌≢◌, ◌⊎◌, refl, ◌∙◌, sym, ap, subst, Bool, true, ◌==◌,
  Option, none, some, List, [], ◌∷◌, ltb, arith, Bool-cases, inl, inr, pos, update, update_self,
}
use oneplog.RingBuffer.Slot.{SlotStatus, SlotState, wfc_enabled, wfc_completed}
use oneplog.RingBuffer.State.{Ring, Cache, size_mod, notify_consumer_if_waiting}
use oneplog.RingBuffer.Wait.{notify_consumer}
use native.Mathlib.Nat.{mod-lt}
use oneplog.Logger.Log.{Call, make_entry, log_impl_wfc}
use oneplog.RingBuffer.Acquire.{Schedule}
use oneplog.RingBuffer.Pop.{wait_for_completion}
use oneplog.RingBuffer.Wfc.{wait-completed, push_wfc-room}
use oneplog.RingBuffer.Inv.{
  IsValid, contents, length-contents, filled, filled-IsValid, reframe-IsValid,
}
use oneplog.RingBuffer.PushSmall.{IsSmall, notify-eq, notify_consumer-eq}
use oneplog.RingBuffer.PopRefines.{popped, popped-IsValid}
use oneplog.Logger.Entry.{LogEntry}
use oneplog.Logger.Sinks.{World, SinkBinding, write_all_async}
use oneplog.Logger.Worker.{drain}
use oneplog.Logger.Drain.{drain_lem, pop_and_process-ready, pop_and_process-empty}

-- Slot `i` is completed, or its entry in the ring awaits completion.
Pending : Ring LogEntry → ℕ → Type 0
Pending r i =
    ((r.slots i).wfc ≡ wfc_completed)
    ⊎ (((r.slots i).wfc ≡ wfc_enabled)
        × ((k : ℕ) × (r.tail ≤ k) × (k < r.head) × (i ≡ k % r.capacity)))

popped-Pending :
    (shadow : Bool) (r : Ring LogEntry) (i : ℕ)
    → IsValid r
    → r.tail < r.head
    → Pending r i
    → Pending (popped true shadow r) i
unfolding Pending
popped-Pending shadow r i v h (inl done) = inl (ground (arith, done))
popped-Pending shadow r i v h (inr (on, (k, from, to, at))) =
    elim (Bool-cases (r.tail % r.capacity == i)) [
      | inl here ↦ inl (ground (arith, here, on))
      | inr other ↦
          let apart : r.tail ≢ k =
            λ e. absurd (ground (arith, other, at, ap (λ t. t % r.capacity) e)) in
          inr (ground (arith, other, on), (k, omega (arith, apart, from, v.fits, h), to, at))
    ]

end-Pending :
    (r : Ring LogEntry) (i : ℕ) → r.head ≡ r.tail → Pending r i → (r.slots i).wfc ≡ wfc_completed
unfolding Pending
end-Pending r i e (inl done) = done
end-Pending r i e (inr (on, (k, from, to, at))) = absurd (omega (arith, from, to, e))

abbrev pub drained : Ring LogEntry → Option (Ring LogEntry × World) → Ring LogEntry
drained d none = d
drained d (some (r, w)) = r

module _ (bindings : List SinkBinding) (shadow : Bool) where
  drain-next :
      (fuel : ℕ) (r : Ring LogEntry) (w : World)
      → IsValid r
      → r.tail < r.head
      → drain bindings true shadow (suc fuel) r w
        ≡ drain bindings true shadow fuel
            (popped true shadow r)
            (write_all_async bindings (r.buffer (r.tail % r.capacity)) w)
  unfolding drain
  drain-next fuel r w v h = rw (pop_and_process-ready bindings shadow true r w v h) refl

  drain-end :
      (fuel : ℕ) (r : Ring LogEntry) (w : World)
      → IsValid r
      → r.head ≡ r.tail
      → drain bindings true shadow (suc fuel) r w ≡ some (r, w)
  unfolding drain
  drain-end fuel r w v e = rw (pop_and_process-empty bindings shadow true r w v e) refl

  drain-completes :
      (fuel : ℕ) (r : Ring LogEntry) (w : World) (after : Ring LogEntry) (w' : World) (i : ℕ)
      → IsValid r
      → drain bindings true shadow fuel r w ≡ some (after, w')
      → Pending r i
      → (after.slots i).wfc ≡ wfc_completed
  unfolding Pending drain
  drain-completes zero r w after w' i v e p = absurd (ground (arith, e))
  drain-completes (suc fuel) r w after w' i v e p = elim (Bool-cases (ltb r.tail r.head)) [
    | inl some_left ↦
        let h : r.tail < r.head = ground arith in
        drain-completes fuel (popped true shadow r)
          (write_all_async bindings (r.buffer (r.tail % r.capacity)) w) after w' i
          (popped-IsValid true shadow v h) (sym (drain-next fuel r w v h) ∙ e)
          (popped-Pending shadow r i v h p)
    | inr nothing ↦
        let end : r.head ≡ r.tail = ground (arith, v.order) in
        let same = sym (drain-end fuel r w v end) ∙ e in
        subst (λ (q : Ring LogEntry). (q.slots i).wfc ≡ wfc_completed) (ap (drained r) same)
          (end-Pending r i end p)
  ]

  -- What other threads do is the worker's drain, with one round more than the ring has places.
  unfoldable pub IsDrain : (Ring LogEntry → Ring LogEntry) → Type 0
  IsDrain worker =
      (q : Ring LogEntry)
      → IsValid q
      → (w : World) × (worker q ≡ drained q (drain bindings true shadow (q.capacity + 1) q w))

  waits-once :
      (worker : Ring LogEntry → Ring LogEntry) (rounds : List (Ring LogEntry → Ring LogEntry))
      (i : ℕ) (q : Ring LogEntry)
      → q.live ≡ true
      → i < q.capacity
      → (q.slots i).wfc ≡ wfc_enabled
      → (worker q).live ≡ true
      → i < (worker q).capacity
      → wait_for_completion (pos i) (worker ∷ rounds) q
        ≡ wait_for_completion (pos i) rounds (worker q)
  unfolding wait_for_completion
  waits-once worker rounds i q live fits on live' fits' = ground arith

  worker-completes :
      (worker : Ring LogEntry → Ring LogEntry) (rounds : List (Ring LogEntry → Ring LogEntry))
      (i : ℕ) (q : Ring LogEntry)
      → IsDrain worker
      → IsValid q
      → i < q.capacity
      → (q.slots i).wfc ≡ wfc_enabled
      → Pending q i
      → (wait_for_completion (pos i) (worker ∷ rounds) q ≡ (true, worker q))
        × (IsValid (worker q) × (contents (worker q) ≡ []))
  unfolding IsDrain
  worker-completes worker rounds i q drains v fits on p =
      let (w, by) = drains q v in
      let d =
        drain_lem bindings shadow true (q.capacity + 1) q w v
          (omega (arith, length-contents q, v.room)) in
      let same : worker q ≡ d.after = by ∙ ap (drained q) d.returned in
      let done : ((worker q).slots i).wfc ≡ wfc_completed =
        subst (λ (x : Ring LogEntry). (x.slots i).wfc ≡ wfc_completed) (sym same)
          (drain-completes (q.capacity + 1) q w d.after _ i v d.returned p) in
      let v' : IsValid (worker q) = subst IsValid (sym same) d.valid in
      let cap : (worker q).capacity ≡ q.capacity =
        ap (λ (x : Ring LogEntry). x.capacity) same ∙ d.same_capacity in
      (
        waits-once worker rounds i q v.live fits on v'.live (omega (arith, cap, fits))
            ∙ wait-completed rounds i (worker q) v'.live (omega (arith, cap, fits)) done,
        (v', ap contents same ∙ d.empty),
      )

  -- Slot `i` holds an entry that awaits completion.
  record Awaited (i : ℕ) (q : Ring LogEntry) : Type 0 where
    valid : IsValid q
    in_range : i < q.capacity
    enabled : (q.slots i).wfc ≡ wfc_enabled
    pending : Pending q i

  Awaited-notified :
      (i n : ℕ) (q : Ring LogEntry) → Awaited i q → Awaited i (record q { notifications = n })
  unfolding Pending
  Awaited-notified i n q a = record {
    valid = reframe-IsValid q.shadow_tail q.dropped_count n a.valid (a.valid).behind;
    in_range = a.in_range;
    enabled = a.enabled;
    pending = a.pending;
  }

  filled-Awaited :
      (r : Ring LogEntry) (x : LogEntry)
      → IsValid r
      → r.head - r.tail < r.capacity
      → r.head + 1 < size_mod
      → Awaited (r.head % r.capacity) (filled r x wfc_enabled)
  unfolding Pending
  filled-Awaited r x v room fits =
      let on : update r.slots (r.head % r.capacity)
            (record { state = SlotState.ready; wfc = wfc_enabled }) (r.head % r.capacity)
          ≡ record { state = SlotState.ready; wfc = wfc_enabled } =
        update_self r.slots (r.head % r.capacity) _ in
      record {
        valid = (filled-IsValid x wfc_enabled v room fits).0;
        in_range = mod-lt r.head v.cap_pos;
        enabled = ap (λ (s : SlotStatus). s.wfc) on;
        pending =
            inr (ap (λ (s : SlotStatus). s.wfc) on, (r.head, v.order, omega (arith, fits), refl));
      }

  -- What a call that waited for completion has done.
  pub record Completed (c : Cache) (out : Option (Bool × Cache × Option (Ring LogEntry)))
      : Type 0 where
    pub after : Ring LogEntry
    pub returned : out ≡ some (true, c, some after)
    pub valid : IsValid after
    pub empty : contents after ≡ []

  -- On a valid ring with room that takes the small queue's path (no shadow tail, or at most 32
  -- places), while the head does not wrap around, if the worker drains the ring in the first round of
  -- the wait, `LogImplWFC` returns in the next, having seen the completion of its entry, whatever its
  -- deadline; the ring is valid and empty then.
  pub log_impl_wfc-Completed :
      (worker o : Ring LogEntry → Ring LogEntry) (sched : Schedule LogEntry)
      (rounds : List (Ring LogEntry → Ring LogEntry)) (call : Call) (c : Cache) (r : Ring LogEntry)
      → IsDrain worker
      → IsValid r
      → IsSmall shadow r
      → r.head - r.tail < r.capacity
      → r.head + 1 < size_mod
      → Completed c (log_impl_wfc bindings shadow (o ∷ sched) (worker ∷ rounds) call c (some r))
  unfolding log_impl_wfc
  log_impl_wfc-Completed worker o sched rounds call c r drains v s room fits =
      let x = make_entry bindings call in
      let i = r.head % r.capacity in
      let f = filled r x wfc_enabled in
      let g = notify_consumer_if_waiting f in
      let q = notify_consumer g in
      let once : Awaited i g =
        subst (Awaited i) (sym (notify-eq f))
          (Awaited-notified i g.notifications f (filled-Awaited r x v room fits)) in
      let a : Awaited i q =
        subst (Awaited i) (sym (notify_consumer-eq g))
          (Awaited-notified i q.notifications g once) in
      let done = worker-completes worker rounds i q drains a.valid a.in_range a.enabled a.pending in
      record {
        after = worker q;
        returned =
            rw (log_impl_wfc, push_wfc-room shadow o sched x c v s room)
              (ap (λ (p : Bool × Ring LogEntry). some (p.0, c, some p.1)) done.0);
        valid = done.1.0;
        empty = done.1.1;
      }
