-- ===== src/Pipeline/Available.antt =====
-- What the inner loop of the pipeline's thread moves (include/oneplog/internal/pipeline_thread.hpp).
use oneplog.Prelude.{
  ℕ, ◌+◌, ◌%◌, ◌≤◌, ◌<◌, ◌≡◌, refl, ◌∙◌, ap, Bool, true, false, Option, none, some, List, [], ◌∷◌,
  ◌++◌, ltb, arith, Bool-cases, inl, inr, length,
}
use oneplog.RingBuffer.State.{Ring, Cache, size_mod}
use oneplog.RingBuffer.Pop.{try_pop}
use oneplog.RingBuffer.PushSmall.{IsSmall}
use oneplog.RingBuffer.PopRefines.{popped, try_pop-ready, try_pop-empty}
use oneplog.Logger.Entry.{LogEntry}
use oneplog.Pipeline.Forward.{process_entry}
use oneplog.Pipeline.Drain.{process_entry-room}
use oneplog.Pipeline.Thread.{Round, forward_available}
use oneplog.Pipeline.Trace.{Action, OnlyGrows, LeavesRoom, RoundsHold, Moves, length-snoc}
use oneplog.Pipeline.Reach.{Reached, Reached-grown, Reached-shrunk, Reached-moved}

module _ (mem : ℕ → ℕ) (pid : ℕ) (r0 q0 : Ring LogEntry) (wfc shadow : Bool)
    (IsProducer IsConsumer : Action → Type 0) where
  -- What the inner loop returns, from `moves`, in at most that many rounds.
  pub record Forwarded (c : Cache) (moves : Moves) (rounds : ℕ)
      (out : Option (Bool × Cache × Ring LogEntry × Option (Ring LogEntry))) : Type 0 where
    pub running : Bool
    pub heap : Ring LogEntry
    pub shared : Ring LogEntry
    pub more : Moves
    pub returned : out ≡ some (running, c, heap, some shared)
    pub reached : Reached mem pid r0 q0 wfc shadow IsProducer IsConsumer more heap shared
    pub few : length more ≤ length moves + rounds

  forward-next :
      (t : Round) (rounds : List Round) (c c' : Cache) (r r' : Ring LogEntry) (e : LogEntry)
      (q : Ring LogEntry) (shared' : Option (Ring LogEntry))
      → try_pop wfc shadow (t.producers r) ≡ (some e, r')
      → process_entry mem pid wfc shadow t.turn e c (some (t.consumers q)) ≡ some (c', shared')
      → forward_available mem pid wfc shadow (t ∷ rounds) c r (some q)
        ≡ forward_available mem pid wfc shadow rounds c' r' shared'
  unfolding forward_available
  forward-next t rounds c c' r r' e q shared' taken done =
      rw (forward_available, taken, done)
        (ap (λ p. forward_available mem pid wfc shadow rounds c' p.1 shared') taken)

  forward-stop :
      (t : Round) (rounds : List Round) (c : Cache) (r r' q : Ring LogEntry)
      → try_pop wfc shadow (t.producers r) ≡ (none, r')
      → forward_available mem pid wfc shadow (t ∷ rounds) c r (some q) ≡ some (true, c, r', some q)
  unfolding forward_available
  forward-stop t rounds c r r' q taken =
      rw (forward_available, taken) (ap (λ p. some (true, c, p.1, some q)) taken)

  module _ (s : IsSmall shadow q0) (grow : (o : Action) → IsProducer o → OnlyGrows o)
      (shrink : (o : Action) → IsConsumer o → LeavesRoom o) where
    pub available-Forwarded :
        (rounds : List Round) (c : Cache) (moves : Moves) (r q : Ring LogEntry)
        → RoundsHold IsProducer IsConsumer rounds
        → Reached mem pid r0 q0 wfc shadow IsProducer IsConsumer moves r q
        → q0.head + (length moves + length rounds) < size_mod
        → Forwarded c moves
            (length rounds)
            (forward_available mem pid wfc shadow rounds c r (some q))
    unfolding forward_available
    available-Forwarded [] c moves r q h a fits = record {
      running = false;
      heap = r;
      shared = q;
      more = moves;
      returned = refl;
      reached = a;
      few = omega arith;
    }
    available-Forwarded (t ∷ rounds) c moves r q h a fits =
        let r' = t.producers r in
        let g =
          Reached-grown mem pid r0 q0 wfc shadow IsProducer IsConsumer t.producers h.0 a
            (grow t.producers h.0 r a.heap_valid) in
        elim (Bool-cases (ltb r'.tail r'.head)) [
          | inl some_left ↦
              let ready : r'.tail < r'.head = ground arith in
              let q' = t.consumers q in
              let e = r'.buffer (r'.tail % r'.capacity) in
              let z = shrink t.consumers h.1 q g.shared_valid in
              let b =
                Reached-shrunk mem pid r0 q0 wfc shadow IsProducer IsConsumer t.consumers h.1 g z in
              let p =
                process_entry-room mem pid wfc shadow t.turn e c q' z.valid (rw b.same_capacity s)
                  z.room (omega (arith, b.next_head, fits)) in
              let m = length-snoc moves (t.turn, e) in
              let ih =
                available-Forwarded rounds c (moves ++ ((t.turn, e) ∷ [])) (popped wfc shadow r')
                  p.after h.2
                  (Reached-moved mem pid r0 q0 wfc shadow IsProducer IsConsumer t.turn c b ready p)
                  (omega (arith, fits, m)) in
              record {
                running = ih.running;
                heap = ih.heap;
                shared = ih.shared;
                more = ih.more;
                returned =
                    forward-next t rounds c c r (popped wfc shadow r') e q (some p.after)
                      (try_pop-ready wfc shadow g.heap_valid ready) p.returned
                    ∙ ih.returned;
                reached = ih.reached;
                few = omega (arith, ih.few, m);
              }
          | inr nothing ↦
              let none_left : r'.head ≡ r'.tail = ground (arith, (g.heap_valid).order) in
              record {
                running = true;
                heap = r';
                shared = q;
                more = moves;
                returned =
                    forward-stop t rounds c r r' q
                      (try_pop-empty wfc shadow g.heap_valid none_left);
                reached = g;
                few = omega arith;
              }
        ]
