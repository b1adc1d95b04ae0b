-- ===== src/Pipeline/Drain.antt =====
-- What the pipeline makes of the entries of a process
-- (include/oneplog/internal/pipeline_thread.hpp).
use oneplog.Prelude.{
  ℕ, ◌+◌, ◌-◌, ◌%◌, ◌≤◌, ◌<◌, ◌≡◌, refl, ◌∙◌, sym, ap, subst, Bool, Option, none, some, List, [],
  ◌∷◌, ◌++◌, map, append-nil, append_assoc, ltb, arith, Bool-cases, inl, inr, length,
}
use oneplog.Snapshot.Format.{Printer}
use oneplog.RingBuffer.State.{Ring, Cache, size_mod, notify_consumer_if_waiting}
use oneplog.RingBuffer.Pop.{try_pop}
use oneplog.RingBuffer.Wait.{notify_consumer}
use oneplog.RingBuffer.Inv.{
  IsValid, contents, filled, filled-IsValid, released-IsValid, reframe-IsValid,
}
use oneplog.RingBuffer.PushSmall.{IsSmall, notify_consumer-eq, try_push-room, notify-eq}
use oneplog.RingBuffer.PopRefines.{
  popped, popped-IsValid, try_pop-ready, try_pop-empty, contents-empty, wfc_after,
}
use oneplog.Logger.Entry.{LogEntry}
use oneplog.Pipeline.Message.{message, ArePortable, forward_all, forward_all-message}
use oneplog.Pipeline.Forward.{Turn, forward, process_entry, drain}

-- A ring with one more entry.
pub record Appended (q : Ring LogEntry) (x : LogEntry) (q' : Ring LogEntry) : Type 0 where
  pub valid : IsValid q'
  pub queue : contents q' ≡ contents q ++ (x ∷ [])
  pub next_head : q'.head ≡ q.head + 1
  pub same_tail : q'.tail ≡ q.tail
  pub same_capacity : q'.capacity ≡ q.capacity

-- What another notification leaves as it was.
Appended-notified :
    {q q' : Ring LogEntry} {x : LogEntry} (n : ℕ)
    → Appended q x q'
    → Appended q x (record q' { notifications = n })
Appended-notified {q' = q'} n a = record {
  valid = reframe-IsValid q'.shadow_tail q'.dropped_count n a.valid (a.valid).behind;
  queue = a.queue;
  next_head = a.next_head;
  same_tail = a.same_tail;
  same_capacity = a.same_capacity;
}

module _ (mem : ℕ → ℕ) (pid : ℕ) (wfc shadow : Bool) where
  pub record Processed (t : Turn) (e : LogEntry) (c : Cache) (q : Ring LogEntry) : Type 0 where
    pub after : Ring LogEntry
    pub returned : process_entry mem pid wfc shadow t e c (some q) ≡ some (c, some after)
    pub appended : Appended q (forward mem pid t e) after

  pub process_entry-room :
      (t : Turn) (e : LogEntry) (c : Cache) (q : Ring LogEntry)
      → IsValid q
      → IsSmall shadow q
      → q.head - q.tail < q.capacity
      → q.head + 1 < size_mod
      → Processed t e c q
  unfolding process_entry
  process_entry-room t e c q v s room fits =
      let x = forward mem pid t e in
      let w = (q.slots (q.head % q.capacity)).wfc in
      let f = filled-IsValid x w v room fits in
      let once = notify_consumer_if_waiting (filled q x w) in
      let base : Appended q x (filled q x w) = record {
        valid = f.0;
        queue = f.1;
        next_head = omega (arith, fits);
        same_tail = refl;
        same_capacity = refl;
      } in
      let first : Appended q x once =
        subst (Appended q x) (sym (notify-eq (filled q x w)))
          (Appended-notified once.notifications base) in
      record {
        after = notify_consumer once;
        returned = rw (process_entry, try_push-room wfc shadow t.others t.sched x c v s room) refl;
        appended =
            subst (Appended q x) (sym (notify_consumer-eq once))
              (Appended-notified (notify_consumer once).notifications first);
      }

  -- What draining into a shared ring has done.
  pub record Moved (c : Cache) (q : Ring LogEntry) (es : List LogEntry)
      (out : Option (Ring LogEntry × Cache × Option (Ring LogEntry))) : Type 0 where
    pub heap : Ring LogEntry
    pub shared : Ring LogEntry
    pub returned : out ≡ some (heap, c, some shared)
    pub heap_valid : IsValid heap
    pub heap_empty : contents heap ≡ []
    pub shared_valid : IsValid shared
    pub queue : contents shared ≡ contents q ++ es
    pub same_tail : shared.tail ≡ q.tail
    pub same_capacity : shared.capacity ≡ q.capacity

  drain-next :
      (t : Turn) (turns : List Turn) (c c' : Cache) (r r' : Ring LogEntry) (e : LogEntry)
      (shared shared' : Option (Ring LogEntry))
      → try_pop wfc shadow r ≡ (some e, r')
      → process_entry mem pid wfc shadow t e c shared ≡ some (c', shared')
      → drain mem pid wfc shadow (t ∷ turns) c r shared
        ≡ drain mem pid wfc shadow turns c' r' shared'
  unfolding drain
  drain-next t turns c c' r r' e shared shared' taken done =
      rw (drain, taken, done) (ap (λ p. drain mem pid wfc shadow turns c' p.1 shared') taken)

  drain-stop :
      (t : Turn) (turns : List Turn) (c : Cache) (r r' : Ring LogEntry)
      (shared : Option (Ring LogEntry))
      → try_pop wfc shadow r ≡ (none, r')
      → drain mem pid wfc shadow (t ∷ turns) c r shared ≡ some (r', c, shared)
  unfolding drain
  drain-stop t turns c r r' shared taken = rw (drain, taken) (ap (λ p. some (p.1, c, shared)) taken)

  pub drain-Moved :
      (turns : List Turn) (c : Cache) (r q : Ring LogEntry)
      → IsValid r
      → IsValid q
      → IsSmall shadow q
      → length (contents r) < length turns
      → (q.head - q.tail) + length (contents r) ≤ q.capacity
      → q.head + length (contents r) < size_mod
      → Moved c q
          (forward_all mem pid turns (contents r))
          (drain mem pid wfc shadow turns c r (some q))
  unfolding forward_all
  drain-Moved [] c r q v u s enough room fits = absurd (omega (arith, enough))
  drain-Moved (t ∷ turns) c r q v u s enough room fits = elim (Bool-cases (ltb r.tail r.head)) [
    | inl some_left ↦
        let h : r.tail < r.head = ground arith in
        let e = r.buffer (r.tail % r.capacity) in
        let rel = (released-IsValid (wfc_after wfc (r.slots (r.tail % r.capacity)).wfc) v h).1 in
        let size = ap length rel in
        let p =
          process_entry-room t e c q u s (omega (arith, room, size)) (omega (arith, fits, size)) in
        let a = p.appended in
        let ih =
          drain-Moved turns c (popped wfc shadow r) p.after (popped-IsValid wfc shadow v h) a.valid
            (rw a.same_capacity s) (omega (arith, enough, size))
            (omega (arith, room, size, a.next_head, a.same_tail, a.same_capacity, u.order))
            (omega (arith, fits, size, a.next_head)) in
        record {
          heap = ih.heap;
          shared = ih.shared;
          returned =
              drain-next t turns c c r (popped wfc shadow r) e (some q) (some p.after)
                (try_pop-ready wfc shadow v h) p.returned
              ∙ ih.returned;
          heap_valid = ih.heap_valid;
          heap_empty = ih.heap_empty;
          shared_valid = ih.shared_valid;
          same_tail = ih.same_tail ∙ a.same_tail;
          same_capacity = ih.same_capacity ∙ a.same_capacity;
          queue =
              ih.queue
              ∙ ap (λ x. x ++ forward_all mem pid turns (contents (popped wfc shadow r))) a.queue
              ∙ append_assoc (contents q) (forward mem pid t e ∷ []) _
              ∙ ap (λ es. contents q ++ forward_all mem pid (t ∷ turns) es) (sym rel);
        }
    | inr nothing ↦
        let e : r.head ≡ r.tail = ground (arith, v.order) in
        let none_left = contents-empty r e in
        record {
          heap = r;
          shared = q;
          returned = drain-stop t turns c r r (some q) (try_pop-empty wfc shadow v e);
          heap_valid = v;
          heap_empty = none_left;
          shared_valid = u;
          same_tail = refl;
          same_capacity = refl;
          queue = sym (
              ap (λ es. contents q ++ forward_all mem pid (t ∷ turns) es) none_left
              ∙ append-nil (contents q));
        }
  ]

  -- If the shared ring is valid, takes the small queue's path (no shadow tail, or at most 32 places),
  -- has room for all entries of a process' valid ring, and its head does not wrap around, the drain at
  -- the end of the thread stops within one round more than there are entries; the process' ring is
  -- empty then, and its entries stand behind those of the shared ring, in order, each converted and
  -- with the process id. If moreover the arguments of each fit with their views copied, then
  -- `FormatAll` gives of the forwarded entries in any process what it gives of the originals in this
  -- one.
  pub drain-delivers :
      (p : Printer) (mem' : ℕ → ℕ) (turns : List Turn) (c : Cache) (r q : Ring LogEntry)
      → IsValid r
      → IsValid q
      → IsSmall shadow q
      → length (contents r) < length turns
      → (q.head - q.tail) + length (contents r) ≤ q.capacity
      → q.head + length (contents r) < size_mod
      → ArePortable mem (contents r)
      → Moved c q
          (forward_all mem pid turns (contents r))
          (drain mem pid wfc shadow turns c r (some q))
        × (map (message p mem') (forward_all mem pid turns (contents r))
            ≡ map (message p mem) (contents r))
  drain-delivers p mem' turns c r q v u s enough room fits portable = (
    drain-Moved turns c r q v u s enough room fits,
    forward_all-message mem pid p mem' turns (contents r) enough portable,
  )
