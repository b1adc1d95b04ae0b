-- ===== src/Logger/System.antt =====
-- The asynchronous logger at work: callers, the worker's rounds and its waits in any order
-- (include/oneplog/logger.hpp).
use oneplog.Prelude.{
  ℕ, ◌+◌, ◌-◌, ◌%◌, ◌≤◌, ◌<◌, ◌≡◌, refl, ◌∙◌, sym, ap, subst, Bool, true, false, if◌then◌else◌,
  Option, none, some, List, [], ◌∷◌, ◌++◌, map, append_assoc, ltb, leb, arith, Bool-cases, inl, inr,
  length,
}
use oneplog.RingBuffer.State.{
  Ring, Cache, add_size, ConsumerState, drop_newest, size_mod, notify_consumer_if_waiting,
}
use oneplog.RingBuffer.Acquire.{Schedule}
use oneplog.RingBuffer.Push.{try_push}
use oneplog.RingBuffer.Inv.{IsValid, contents, length-contents, released, released-IsValid}
use oneplog.RingBuffer.PushSmall.{IsSmall, notify-IsValid, notify-eq}
use oneplog.RingBuffer.PushPolicy.{Pushed, Pushed-room, try_push-drop_newest}
use oneplog.RingBuffer.PopRefines.{popped, popped-IsValid, wfc_after}
use oneplog.Logger.Entry.{LogEntry}
use oneplog.Logger.Sinks.{World, SinkBinding, write_all_async}
use oneplog.Logger.Log.{Call, make_entry, log_impl_async}
use oneplog.Logger.Worker.{pop_and_process}
use oneplog.Logger.Drain.{
  write_each, write_each-append, pop_and_process-ready, pop_and_process-empty,
}

module _ (bindings : List SinkBinding) (wfc shadow : Bool) where
  -- From a ring and what is written, the states that are reached, with the calls whose entries the
  -- ring took, in that order. A call below the capacity returns with its entry in the ring; under
  -- DropNewest one at the capacity returns without; one that waits for room is not a step yet.
  pub data Runs (r0 : Ring LogEntry) (w0 : World) : List Call → Ring LogEntry → World → Type 0 where
    start : Runs r0 w0 [] r0 w0
    logged :
        {calls : List Call} {r r' : Ring LogEntry} {w : World}
        → Runs r0 w0 calls r w
        → (call : Call) (o : Ring LogEntry → Ring LogEntry) (sched : Schedule LogEntry)
          (c c' : Cache)
        → r.head - r.tail < r.capacity
        → r.head + 1 < size_mod
        → log_impl_async bindings wfc shadow (o ∷ sched) call c (some r) ≡ some (c', some r')
        → Runs r0 w0 (calls ++ (call ∷ [])) r' w
    refused :
        {calls : List Call} {r r' : Ring LogEntry} {w : World}
        → Runs r0 w0 calls r w
        → (call : Call) (o : Ring LogEntry → Ring LogEntry) (sched : Schedule LogEntry)
          (c c' : Cache)
        → r.capacity ≤ r.head - r.tail
        → r.policy ≡ drop_newest
        → r.head + 1 < size_mod
        → log_impl_async bindings wfc shadow (o ∷ sched) call c (some r) ≡ some (c', some r')
        → Runs r0 w0 calls r' w
    worked :
        {calls : List Call} {r r' : Ring LogEntry} {w w' : World} {had : Bool}
        → Runs r0 w0 calls r w
        → pop_and_process bindings wfc shadow r w ≡ (had, r', w')
        → Runs r0 w0 calls r' w'
    -- `WaitForData`: the consumer's state and the event descriptor.
    waited :
        {calls : List Call} {r : Ring LogEntry} {w : World}
        → Runs r0 w0 calls r w
        → (s : ConsumerState) (n : ℕ)
        → Runs r0 w0 calls (record r { consumer_state = s; notifications = n }) w

  -- The entries taken so far have been written, and those in the ring follow them.
  pub record Logs (cap : ℕ) (w0 : World) (calls : List Call) (r : Ring LogEntry) (w : World)
      : Type 0 where
    pub taken : List LogEntry
    pub valid : IsValid r
    pub small : IsSmall shadow r
    pub in_order : taken ++ contents r ≡ map (make_entry bindings) calls
    pub written : w ≡ write_each bindings taken w0
    pub capacity_eq : r.capacity ≡ cap

  map-append :
      (xs ys : List Call)
      → map (make_entry bindings) (xs ++ ys)
        ≡ map (make_entry bindings) xs ++ map (make_entry bindings) ys
  map-append [] ys = refl
  map-append (x ∷ xs) ys = ap (λ l. make_entry bindings x ∷ l) (map-append xs ys)

  -- The ring that a call returned.
  ring_of : Ring LogEntry → Option (Cache × Option (Ring LogEntry)) → Ring LogEntry
  ring_of d (some (c, some r)) = r
  ring_of d (some (c, none)) = d
  ring_of d none = d

  pub log-pushed :
      (sched : Schedule LogEntry) (call : Call) (c c' : Cache) (ok : Bool) (r r' : Ring LogEntry)
      → try_push wfc shadow sched (make_entry bindings call) c r ≡ some (ok, c', r')
      → log_impl_async bindings wfc shadow sched call c (some r)
        ≡ some (c', some (notify_consumer_if_waiting r'))
  unfolding log_impl_async
  log-pushed sched call c c' ok r r' e = rw (log_impl_async, e) refl

  -- A call whose push left the queue `q` behind.
  Pushed-Logs :
      {cap : ℕ} {w0 w : World} {calls after : List Call} {r r' : Ring LogEntry} {q : List LogEntry}
      {drops : ℕ} (sched : Schedule LogEntry) (call : Call) (c c' : Cache) (ok : Bool)
      → (l : Logs cap w0 calls r w)
      → Pushed r c (ok, q) drops (try_push wfc shadow sched (make_entry bindings call) c r)
      → log_impl_async bindings wfc shadow sched call c (some r) ≡ some (c', some r')
      → l.taken ++ q ≡ map (make_entry bindings) after
      → Logs cap w0 after r' w
  unfolding ring_of
  Pushed-Logs {r = r} {r' = r'} sched call c c' ok l p e order =
      let same : notify_consumer_if_waiting p.after ≡ r' =
        ap (ring_of r) (sym (log-pushed sched call c c ok r p.after p.returned) ∙ e) in
      let n = notify-IsValid p.valid in
      let cap_same : (notify_consumer_if_waiting p.after).capacity ≡ r.capacity =
        ap (λ (x : Ring LogEntry). x.capacity) (notify-eq p.after) ∙ p.same_capacity in
      record {
        taken = l.taken;
        valid = subst IsValid same n.0;
        small = subst (IsSmall shadow) same (rw cap_same l.small);
        in_order =
            ap (λ x. l.taken ++ contents x) (sym same)
            ∙ ap (λ x. l.taken ++ x) (n.1 ∙ p.queue)
            ∙ order;
        written = l.written;
        capacity_eq = ap (λ (x : Ring LogEntry). x.capacity) (sym same) ∙ cap_same ∙ l.capacity_eq;
      }

  logged-Logs :
      {cap : ℕ} {w0 w : World} {calls : List Call} {r r' : Ring LogEntry}
      → Logs cap w0 calls r w
      → (call : Call) (o : Ring LogEntry → Ring LogEntry) (sched : Schedule LogEntry) (c c' : Cache)
      → r.head - r.tail < r.capacity
      → r.head + 1 < size_mod
      → log_impl_async bindings wfc shadow (o ∷ sched) call c (some r) ≡ some (c', some r')
      → Logs cap w0 (calls ++ (call ∷ [])) r' w
  logged-Logs {calls = calls} {r = r} l call o sched c c' room fits e =
      let x = make_entry bindings call in
      Pushed-Logs (o ∷ sched) call c c' true l
        (Pushed-room wfc shadow o sched x c l.valid l.small room fits) e
        (sym (append_assoc l.taken (contents r) (x ∷ []))
          ∙ ap (λ es. es ++ (x ∷ [])) l.in_order
          ∙ sym (map-append calls (call ∷ [])))

  refused-Logs :
      {cap : ℕ} {w0 w : World} {calls : List Call} {r r' : Ring LogEntry}
      → Logs cap w0 calls r w
      → (call : Call) (o : Ring LogEntry → Ring LogEntry) (sched : Schedule LogEntry) (c c' : Cache)
      → r.capacity ≤ r.head - r.tail
      → r.policy ≡ drop_newest
      → r.head + 1 < size_mod
      → log_impl_async bindings wfc shadow (o ∷ sched) call c (some r) ≡ some (c', some r')
      → Logs cap w0 calls r' w
  refused-Logs {r = r} l call o sched c c' full pol fits e =
      let x = make_entry bindings call in
      let p = try_push-drop_newest wfc shadow o sched x c r l.valid l.small pol fits in
      let whole : leb r.capacity (length (contents r)) ≡ true =
        ground (arith, length-contents r, full) in
      Pushed-Logs (o ∷ sched) call c c' false l
        (subst
          (λ b.
            Pushed r c (if b then (false, contents r) else (true, contents r ++ (x ∷ [])))
              (if b then add_size r.dropped_count 1 else r.dropped_count)
              (try_push wfc shadow (o ∷ sched) x c r))
          whole p)
        e l.in_order

  popped-Logs :
      {cap : ℕ} {w0 w : World} {calls : List Call} {r : Ring LogEntry}
      → Logs cap w0 calls r w
      → r.tail < r.head
      → Logs cap w0 calls
          (popped wfc shadow r)
          (write_all_async bindings (r.buffer (r.tail % r.capacity)) w)
  unfolding write_each
  popped-Logs {cap = cap} {w0 = w0} {w = w} {r = r} l h =
      let x = r.buffer (r.tail % r.capacity) in
      let w' = wfc_after wfc (r.slots (r.tail % r.capacity)).wfc in
      record {
        taken = l.taken ++ (x ∷ []);
        valid = popped-IsValid wfc shadow l.valid h;
        small = l.small;
        in_order =
            append_assoc l.taken (x ∷ []) (contents (released r w'))
            ∙ ap (λ es. l.taken ++ es) (sym (released-IsValid w' l.valid h).1)
            ∙ l.in_order;
        written =
            ap (write_all_async bindings x) l.written
            ∙ sym (write_each-append bindings l.taken (x ∷ []) w0);
        capacity_eq = l.capacity_eq;
      }

  worked-Logs :
      {cap : ℕ} {w0 w w' : World} {calls : List Call} {r r' : Ring LogEntry} {had : Bool}
      → Logs cap w0 calls r w
      → pop_and_process bindings wfc shadow r w ≡ (had, r', w')
      → Logs cap w0 calls r' w'
  worked-Logs {cap = cap} {w0 = w0} {w = w} {calls = calls} {r = r} l e =
      elim (Bool-cases (ltb r.tail r.head)) [
        | inl some_left ↦
            let h : r.tail < r.head = ground arith in
            let same = sym (pop_and_process-ready bindings shadow wfc r w l.valid h) ∙ e in
            subst (λ p. Logs cap w0 calls p.1 p.2) same (popped-Logs l h)
        | inr nothing ↦
            let end : r.head ≡ r.tail = ground (arith, l.valid.order) in
            let same = sym (pop_and_process-empty bindings shadow wfc r w l.valid end) ∙ e in
            subst (λ p. Logs cap w0 calls p.1 p.2) same l
      ]

  waited-Logs :
      {cap : ℕ} {w0 w : World} {calls : List Call} {r : Ring LogEntry} (s : ConsumerState) (n : ℕ)
      → Logs cap w0 calls r w
      → Logs cap w0 calls (record r { consumer_state = s; notifications = n }) w
  waited-Logs s n l = record {
    taken = l.taken;
    valid = record {
      live = l.valid.live;
      cap_pos = l.valid.cap_pos;
      order = l.valid.order;
      room = l.valid.room;
      fits = l.valid.fits;
      behind = l.valid.behind;
      ready = l.valid.ready;
      free = l.valid.free;
    };
    small = l.small;
    in_order = l.in_order;
    written = l.written;
    capacity_eq = l.capacity_eq;
  }

  -- Every state reached from an empty valid ring keeps what has been logged: the entries written
  -- and those in the ring, one behind the other, are the entries of the calls taken, in order.
  pub Runs-Logs :
      (r0 : Ring LogEntry) (w0 : World) {calls : List Call} {r : Ring LogEntry} {w : World}
      → IsValid r0
      → IsSmall shadow r0
      → contents r0 ≡ []
      → Runs r0 w0 calls r w
      → Logs r0.capacity w0 calls r w
  unfolding write_each
  Runs-Logs r0 w0 v s e start = record {
    taken = [];
    valid = v;
    small = s;
    in_order = e;
    written = refl;
    capacity_eq = refl;
  }
  Runs-Logs r0 w0 v s e (logged run call o sched c c' room fits q) =
      logged-Logs (Runs-Logs r0 w0 v s e run) call o sched c c' room fits q
  Runs-Logs r0 w0 v s e (refused run call o sched c c' full pol fits q) =
      refused-Logs (Runs-Logs r0 w0 v s e run) call o sched c c' full pol fits q
  Runs-Logs r0 w0 v s e (worked run q) = worked-Logs (Runs-Logs r0 w0 v s e run) q
  Runs-Logs r0 w0 v s e (waited run st n) = waited-Logs st n (Runs-Logs r0 w0 v s e run)
