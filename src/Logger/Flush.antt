-- ===== src/Logger/Flush.antt =====
-- `Flush` in asynchronous mode (include/oneplog/logger.hpp).
use oneplog.Prelude.{
  ◌%◌, ◌<◌, ◌≡◌, refl, ◌∙◌, sym, ap, Bool, true, false, if◌then◌else◌, Option, none, some, List, [],
  ◌∷◌, length, arith,
}
use oneplog.RingBuffer.State.{Ring}
use oneplog.RingBuffer.Inv.{IsValid, contents, released-IsValid, length-contents}
use oneplog.RingBuffer.Pop.{is_empty, try_pop}
use oneplog.RingBuffer.PopRefines.{popped, popped-IsValid, try_pop-ready, wfc_after}
use oneplog.RingBuffer.WakeUp.{empty-IsValid}
use oneplog.Logger.Entry.{LogEntry}
use oneplog.Logger.Sinks.{World, SinkBinding, flush_all}

-- What other threads do to the ring and the sinks while the caller sleeps.
abbrev pub Others : Type 0
Others = Ring LogEntry × World → Ring LogEntry × World

pub is_empty-ready : {r : Ring LogEntry} → IsValid r → r.tail < r.head → is_empty r ≡ false
unfolding is_empty
is_empty-ready {r} v h = ground (arith, v.live, v.ready r.tail)

module _ (bindings : List SinkBinding) where
  -- Each element of the list is one sleep; none if the ring is not empty after them.
  unfoldable pub flush : List Others → Ring LogEntry → World → Option (Ring LogEntry × World)
  flush [] r w = if is_empty r then some (r, flush_all bindings w) else none
  flush (others ∷ sleeps) r w =
      let next = others (r, w) in
      let rest = flush sleeps next.0 next.1 in
      if is_empty r then some (r, flush_all bindings w) else rest

  module _ (wfc shadow : Bool) where
    flush-stops :
        (sleeps : List Others) (r : Ring LogEntry) (w : World)
        → is_empty r ≡ true
        → flush sleeps r w ≡ some (r, flush_all bindings w)
    unfolding flush
    flush-stops [] r w e = rw e refl
    flush-stops (o ∷ os) r w e = rw e refl

    -- Between a pop and its write the ring is empty: `Flush` then returns at once, and flushes the
    -- sinks without the entry that the worker has just taken.
    pub flush-early :
        (sleeps : List Others) (r : Ring LogEntry) (w : World) (e : LogEntry)
        → IsValid r
        → contents r ≡ e ∷ []
        → ((try_pop wfc shadow r).0 ≡ some e)
          × (flush sleeps (try_pop wfc shadow r).1 w
              ≡ some ((try_pop wfc shadow r).1, flush_all bindings w))
    flush-early sleeps r w e v one =
        let size = length-contents r in
        let single = ap length one in
        let l : r.tail < r.head = omega (arith, size, single) in
        let taken = try_pop-ready wfc shadow v l in
        let rel = (released-IsValid (wfc_after wfc (r.slots (r.tail % r.capacity)).wfc) v l).1 in
        let same : r.buffer (r.tail % r.capacity) ≡ e = cc (sym rel ∙ one) in
        let all_out =
          empty-IsValid (popped-IsValid wfc shadow v l)
            (omega (arith, size, single, v.fits, v.order)) in
        (
          ap (λ p. p.0) taken ∙ ap some same,
          rw taken (flush-stops sleeps (popped wfc shadow r) w all_out),
        )
