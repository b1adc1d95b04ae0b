-- ===== src/Logger/Drain.antt =====
-- What draining does (include/oneplog/logger.hpp).
use oneplog.Prelude.{
  ℕ, zero, suc, ◌%◌, ◌<◌, ◌≡◌, refl, ◌∙◌, sym, ap, ap₂, Bool, true, false, Option, none, some, List,
  [], ◌∷◌, ◌++◌, ltb, arith, Bool-cases, inl, inr, ℤ, pos, negsuc, length,
}
use oneplog.RingBuffer.Slot
use oneplog.RingBuffer.Slot.{WfcState}
use oneplog.RingBuffer.State.{Ring}
use oneplog.RingBuffer.Inv.{IsValid, contents, released-IsValid}
use oneplog.RingBuffer.Pop.{try_pop, try_pop_for_wfc, mark_wfc_complete}
use oneplog.RingBuffer.PopRefines.{
  popped, popped-IsValid, try_pop-ready, try_pop-empty, contents-empty, wfc_after,
}
use oneplog.RingBuffer.Wfc.{pop_for_wfc-then-mark}
use oneplog.Logger.Entry.{LogEntry}
use oneplog.Logger.Sinks.{World, SinkBinding, write_all_async}
use oneplog.Logger.Worker.{process_entry, mark_if_slot, finish, pop_and_process, drain}

-- The entries written one after the other.
unfoldable pub write_each : List SinkBinding → List LogEntry → World → World
write_each bindings [] w = w
write_each bindings (e ∷ es) w = write_each bindings es (write_all_async bindings e w)

pub write_each-append :
    (bindings : List SinkBinding) (es fs : List LogEntry) (w : World)
    → write_each bindings (es ++ fs) w ≡ write_each bindings fs (write_each bindings es w)
unfolding write_each
write_each-append bindings [] fs w = refl
write_each-append bindings (e ∷ es) fs w =
    write_each-append bindings es fs (write_all_async bindings e w)

module _ (bindings : List SinkBinding) (shadow : Bool) where
  mark_if_slot-lem : (slot : ℤ) (r : Ring LogEntry) → mark_if_slot slot r ≡ mark_wfc_complete slot r
  unfolding mark_wfc_complete
  mark_if_slot-lem (pos i) r = refl
  mark_if_slot-lem (negsuc n) r = refl

  -- The result of a pop that found an entry, finished.
  finish-some :
      (wfc : Bool) (out : Option LogEntry) (slot : ℤ) (r q : Ring LogEntry) (w : World)
      (e : LogEntry)
      → out ≡ some e
      → mark_wfc_complete slot r ≡ q
      → finish bindings wfc shadow out slot r w ≡ (true, q, write_all_async bindings e w)
  unfolding process_entry
  finish-some wfc none slot r q w e o m = absurd (ground arith)
  finish-some wfc (some e') slot r q w e o m =
      ap₂ (λ q e. (true, q, write_all_async bindings e w)) (mark_if_slot-lem slot r ∙ m)
        (ground arith)

  -- A round takes the oldest entry, if there is one, and writes it.
  pub pop_and_process-ready :
      (wfc : Bool) (r : Ring LogEntry) (w : World)
      → IsValid r
      → r.tail < r.head
      → pop_and_process bindings wfc shadow r w
        ≡ (true, popped wfc shadow r, write_all_async bindings (r.buffer (r.tail % r.capacity)) w)
  unfolding pop_and_process mark_wfc_complete
  pop_and_process-ready true r w v h =
      let taken = pop_for_wfc-then-mark shadow r v ∙ try_pop-ready true shadow v h in
      finish-some true (try_pop_for_wfc shadow r).0 (try_pop_for_wfc shadow r).1
        (try_pop_for_wfc shadow r).2 (popped true shadow r) w (r.buffer (r.tail % r.capacity))
        (ap (λ p. p.0) taken) (ap (λ p. p.1) taken)
  pop_and_process-ready false r w v h =
      let taken = try_pop-ready false shadow v h in
      finish-some false (try_pop false shadow r).0 (negsuc 0) (try_pop false shadow r).1
        (popped false shadow r) w (r.buffer (r.tail % r.capacity)) (ap (λ p. p.0) taken)
        (ap (λ p. p.1) taken)

  pub pop_and_process-empty :
      (wfc : Bool) (r : Ring LogEntry) (w : World)
      → IsValid r
      → r.head ≡ r.tail
      → pop_and_process bindings wfc shadow r w ≡ (false, r, w)
  unfolding pop_and_process try_pop_for_wfc
  pop_and_process-empty true r w v e =
      ground
        (arith, v.live, v.free r.tail, Slot.try_start_read-empty (r.slots (r.tail % r.capacity)))
  pop_and_process-empty false r w v e = rw (try_pop-empty false shadow v e) refl

  -- What draining has done.
  pub record Drained (r : Ring LogEntry) (w : World) (out : Option (Ring LogEntry × World))
      : Type 0 where
    pub after : Ring LogEntry
    pub returned : out ≡ some (after, write_each bindings (contents r) w)
    pub valid : IsValid after
    pub empty : contents after ≡ []
    pub same_head : after.head ≡ r.head
    pub same_capacity : after.capacity ≡ r.capacity

  -- On a valid ring `DrainRemainingEntries` stops within one round more than there are entries: it has
  -- written every entry to every sink, the oldest first, and the ring is valid and empty.
  pub drain_lem :
      (wfc : Bool) (fuel : ℕ) (r : Ring LogEntry) (w : World)
      → IsValid r
      → length (contents r) < fuel
      → Drained r w (drain bindings wfc shadow fuel r w)
  unfolding drain write_each
  drain_lem wfc zero r w v h = absurd (omega (arith, h))
  drain_lem wfc (suc fuel) r w v h = elim (Bool-cases (ltb r.tail r.head)) [
    | inl some_left ↦
        let l : r.tail < r.head = ground arith in
        let rel = (released-IsValid (wfc_after wfc (r.slots (r.tail % r.capacity)).wfc) v l).1 in
        let shorter = ap length rel in
        let ih =
          drain_lem wfc fuel (popped wfc shadow r)
            (write_all_async bindings (r.buffer (r.tail % r.capacity)) w)
            (popped-IsValid wfc shadow v l) (omega (arith, h, shorter)) in
        rw (pop_and_process-ready wfc r w v l) (record {
          after = ih.after;
          returned = ih.returned ∙ ap (λ es. some (ih.after, write_each bindings es w)) (sym rel);
          valid = ih.valid;
          empty = ih.empty;
          same_head = ih.same_head;
          same_capacity = ih.same_capacity;
        })
    | inr nothing ↦
        let e : r.head ≡ r.tail = ground (arith, v.order) in
        let none_left = contents-empty r e in
        rw (pop_and_process-empty wfc r w v e) (record {
          after = r;
          returned = ap (λ es. some (r, write_each bindings es w)) (sym none_left);
          valid = v;
          empty = none_left;
          same_head = refl;
          same_capacity = refl;
        })
  ]
