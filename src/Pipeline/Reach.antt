-- ===== src/Pipeline/Reach.antt =====
-- How far the main loop of the pipeline has come, and what keeps it there
-- (include/oneplog/internal/pipeline_thread.hpp).
use oneplog.Prelude.{
  ℕ, ◌+◌, ◌%◌, ◌<◌, ◌≡◌, ◌∙◌, sym, ap, Bool, List, [], ◌∷◌, ◌++◌, append_assoc, arith, length,
}
use oneplog.RingBuffer.State.{Ring, Cache, ConsumerState}
use oneplog.RingBuffer.Inv.{IsValid, contents, released-IsValid}
use oneplog.RingBuffer.PopRefines.{popped, popped-IsValid, wfc_after}
use oneplog.RingBuffer.WaitKeeps.{waiting-IsValid, Keeps, AllKeep}
use oneplog.Logger.Entry.{LogEntry}
use oneplog.Pipeline.Forward.{Turn, forward}
use oneplog.Pipeline.Drain.{Processed}
use oneplog.Pipeline.Trace.{
  Grown, Shrunk, Action, OnlyGrows, AllProduce, Moves, originals, originals-append, sent,
  sent-append, length-snoc, Trace, grows, shrinks, forwards, waits,
}

module _ (mem : ℕ → ℕ) (pid : ℕ) (r0 q0 : Ring LogEntry) (wfc shadow : Bool)
    (IsProducer IsConsumer : Action → Type 0) where
  -- The rings that are reached when `moves` have been forwarded: nothing that was in the ring of the
  -- process, or was added, is lost, nor is the order changed, on the way to the shared ring.
  pub record Reached (moves : Moves) (r q : Ring LogEntry) : Type 0 where
    pub added : List LogEntry
    pub removed : List LogEntry
    pub trace : Trace mem pid r0 q0 wfc shadow IsProducer IsConsumer added removed moves r q
    pub heap_valid : IsValid r
    pub shared_valid : IsValid q
    pub taken : originals moves ++ contents r ≡ contents r0 ++ added
    pub delivered : removed ++ contents q ≡ contents q0 ++ sent mem pid moves
    pub next_head : q.head ≡ q0.head + length moves
    pub same_capacity : q.capacity ≡ q0.capacity

  pub Reached-grown :
      {moves : Moves} {r q : Ring LogEntry} (o : Action)
      → IsProducer o
      → Reached moves r q
      → Grown r (o r)
      → Reached moves (o r) q
  Reached-grown {moves} {r} {q} o is a g = record {
    added = a.added ++ g.added;
    removed = a.removed;
    trace = grows a.trace o is g;
    heap_valid = g.valid;
    shared_valid = a.shared_valid;
    taken =
        ap (λ xs. originals moves ++ xs) g.queue
        ∙ sym (append_assoc (originals moves) (contents r) g.added)
        ∙ ap (λ xs. xs ++ g.added) a.taken
        ∙ append_assoc (contents r0) a.added g.added;
    delivered = a.delivered;
    next_head = a.next_head;
    same_capacity = a.same_capacity;
  }

  pub Reached-shrunk :
      {moves : Moves} {r q : Ring LogEntry} (o : Action)
      → IsConsumer o
      → Reached moves r q
      → Shrunk q (o q)
      → Reached moves r (o q)
  Reached-shrunk {moves} {r} {q} o is a s = record {
    added = a.added;
    removed = a.removed ++ s.removed;
    trace = shrinks a.trace o is s;
    heap_valid = a.heap_valid;
    shared_valid = s.valid;
    taken = a.taken;
    delivered =
        append_assoc a.removed s.removed (contents (o q))
        ∙ ap (λ xs. a.removed ++ xs) s.queue
        ∙ a.delivered;
    next_head = s.same_head ∙ a.next_head;
    same_capacity = s.same_capacity ∙ a.same_capacity;
  }

  pub Reached-on_wait :
      {moves : Moves} {q : Ring LogEntry} (r : Ring LogEntry) (s : ConsumerState) (n : ℕ)
      → Reached moves r q
      → Reached moves (record r { consumer_state = s; notifications = n }) q
  Reached-on_wait r s n a = record {
    added = a.added;
    removed = a.removed;
    trace = waits a.trace s n;
    heap_valid = waiting-IsValid s n a.heap_valid;
    shared_valid = a.shared_valid;
    taken = a.taken;
    delivered = a.delivered;
    next_head = a.next_head;
    same_capacity = a.same_capacity;
  }

  pub Keeps-grown :
      (moves : Moves) (q : Ring LogEntry) (o : Action)
      → IsProducer o
      → OnlyGrows o
      → Keeps (λ r. Reached moves r q) Reached-on_wait o
  unfolding Keeps
  Keeps-grown moves q o is g r a = Reached-grown o is a (g r a.heap_valid)

  pub AllKeep-grown :
      (moves : Moves) (q : Ring LogEntry) (os : List Action)
      → ((o : Action) → IsProducer o → OnlyGrows o)
      → AllProduce IsProducer IsConsumer os
      → AllKeep (λ r. Reached moves r q) Reached-on_wait os
  AllKeep-grown moves q [] grow h = tt
  AllKeep-grown moves q (o ∷ os) grow h =
      (Keeps-grown moves q o h.0 (grow o h.0), AllKeep-grown moves q os grow h.1)

  pub Reached-moved :
      {moves : Moves} {r q : Ring LogEntry} (t : Turn) (c : Cache)
      → Reached moves r q
      → (h : r.tail < r.head)
      → (p : Processed mem pid wfc shadow t (r.buffer (r.tail % r.capacity)) c q)
      → Reached (moves ++ ((t, r.buffer (r.tail % r.capacity)) ∷ [])) (popped wfc shadow r) p.after
  Reached-moved {moves} {r} {q} t c a h p =
      let e = r.buffer (r.tail % r.capacity) in
      let m : Moves = (t, e) ∷ [] in
      let rel =
        (released-IsValid (wfc_after wfc (r.slots (r.tail % r.capacity)).wfc) a.heap_valid h).1 in
      record {
        added = a.added;
        removed = a.removed;
        trace = forwards a.trace t h (p.appended).queue;
        heap_valid = popped-IsValid wfc shadow a.heap_valid h;
        shared_valid = (p.appended).valid;
        taken =
            ap (λ xs. xs ++ contents (popped wfc shadow r)) (originals-append moves m)
            ∙ append_assoc (originals moves) (e ∷ []) (contents (popped wfc shadow r))
            ∙ ap (λ xs. originals moves ++ xs) (sym rel)
            ∙ a.taken;
        delivered =
            ap (λ xs. a.removed ++ xs) (p.appended).queue
            ∙ sym (append_assoc a.removed (contents q) (forward mem pid t e ∷ []))
            ∙ ap (λ xs. xs ++ (forward mem pid t e ∷ [])) a.delivered
            ∙ append_assoc (contents q0) (sent mem pid moves) (forward mem pid t e ∷ [])
            ∙ ap (λ xs. contents q0 ++ xs) (sym (sent-append mem pid moves m));
        next_head = omega (arith, (p.appended).next_head, a.next_head, length-snoc moves (t, e));
        same_capacity = (p.appended).same_capacity ∙ a.same_capacity;
      }
