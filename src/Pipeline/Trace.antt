-- ===== src/Pipeline/Trace.antt =====
-- What others do while the thread of the pipeline runs, and the steps of a run
-- (include/oneplog/internal/pipeline_thread.hpp).
use oneplog.Prelude.{ℕ, Bool, ◌%◌, ◌+◌, ◌-◌, ◌<◌, ◌≡◌, refl, ap, List, [], ◌∷◌, ◌++◌, arith, length}
use oneplog.RingBuffer.State.{Ring, ConsumerState}
use oneplog.RingBuffer.Inv.{IsValid, contents}
use oneplog.RingBuffer.PopRefines.{popped}
use oneplog.Logger.Entry.{LogEntry}
use oneplog.Pipeline.Forward.{Turn, forward}
use oneplog.Pipeline.Thread.{Round, ThreadTurn}

-- Producers add entries and leave the ring valid.
pub record Grown (r r' : Ring LogEntry) : Type 0 where
  pub added : List LogEntry
  pub valid : IsValid r'
  pub queue : contents r' ≡ contents r ++ added

-- Consumers take the oldest entries, leave the ring valid and have taken enough that there is room.
pub record Shrunk (q q' : Ring LogEntry) : Type 0 where
  pub removed : List LogEntry
  pub valid : IsValid q'
  pub queue : removed ++ contents q' ≡ contents q
  pub room : q'.head - q'.tail < q'.capacity
  pub same_head : q'.head ≡ q.head
  pub same_capacity : q'.capacity ≡ q.capacity

-- What another thread does to a ring.
abbrev pub Action : Type 0
Action = Ring LogEntry → Ring LogEntry

abbrev pub OnlyGrows : Action → Type 0
OnlyGrows o = (r : Ring LogEntry) → IsValid r → Grown r (o r)

abbrev pub LeavesRoom : Action → Type 0
LeavesRoom o = (q : Ring LogEntry) → IsValid q → Shrunk q (o q)

-- The actions of the producers of the one ring, and of the users of the other.
module _ (IsProducer IsConsumer : Action → Type 0) where
  abbrev pub AllProduce : List Action → Type 0
  AllProduce [] = Unit {0}
  AllProduce (o ∷ os) = IsProducer o × AllProduce os

  abbrev pub RoundsHold : List Round → Type 0
  RoundsHold [] = Unit {0}
  RoundsHold (t ∷ rounds) = IsProducer t.producers × IsConsumer t.consumers × RoundsHold rounds

  abbrev pub TurnsHold : List ThreadTurn → Type 0
  TurnsHold [] = Unit {0}
  TurnsHold (t ∷ turns) =
      (RoundsHold t.rounds
        × AllProduce t.polls
        × IsProducer t.missed
        × IsProducer t.before
        × IsProducer t.during)
      × TurnsHold turns

abbrev pub rounds_of : List ThreadTurn → ℕ
rounds_of [] = 0
rounds_of (t ∷ turns) = length t.rounds + rounds_of turns

-- The entries that have been forwarded, each with its turn.
abbrev pub Moves : Type 0
Moves = List (Turn × LogEntry)

abbrev pub originals : Moves → List LogEntry
originals [] = []
originals (m ∷ ms) = m.1 ∷ originals ms

module _ (mem : ℕ → ℕ) (pid : ℕ) where
  abbrev pub sent : Moves → List LogEntry
  sent [] = []
  sent (m ∷ ms) = forward mem pid m.0 m.1 ∷ sent ms

  pub sent-append : (ms ns : Moves) → sent (ms ++ ns) ≡ sent ms ++ sent ns
  sent-append [] ns = refl
  sent-append (m ∷ ms) ns = ap (λ xs. forward mem pid m.0 m.1 ∷ xs) (sent-append ms ns)

pub originals-append : (ms ns : Moves) → originals (ms ++ ns) ≡ originals ms ++ originals ns
originals-append [] ns = refl
originals-append (m ∷ ms) ns = ap (λ xs. m.1 ∷ xs) (originals-append ms ns)

pub length-snoc : (ms : Moves) (m : Turn × LogEntry) → length (ms ++ (m ∷ [])) ≡ length ms + 1
length-snoc [] m = refl
length-snoc (x ∷ ms) m = omega (arith, length-snoc ms m)

module _ (mem : ℕ → ℕ) (pid : ℕ) (r0 q0 : Ring LogEntry) (wfc shadow : Bool)
    (IsProducer IsConsumer : Action → Type 0) where
  -- The steps that lead to two rings: each is an action of a producer or of a user of the shared ring
  -- on the ring as it stands, or a pop of the oldest entry with its push to the shared ring. The
  -- indices are the entries that the producers have added, those that the users of the shared ring
  -- have taken, and those forwarded.
  pub data Trace
      : List LogEntry → List LogEntry → Moves → Ring LogEntry → Ring LogEntry → Type 0 where
    begins : Trace [] [] [] r0 q0
    grows :
        {added removed : List LogEntry} {moves : Moves} {r q : Ring LogEntry}
        → Trace added removed moves r q
        → (o : Action) → IsProducer o
        → (g : Grown r (o r)) → Trace (added ++ g.added) removed moves (o r) q
    shrinks :
        {added removed : List LogEntry} {moves : Moves} {r q : Ring LogEntry}
        → Trace added removed moves r q
        → (o : Action) → IsConsumer o
        → (z : Shrunk q (o q)) → Trace added (removed ++ z.removed) moves r (o q)
    forwards :
        {added removed : List LogEntry} {moves : Moves} {r q q' : Ring LogEntry}
        → Trace added removed moves r q
        → (t : Turn) → r.tail < r.head
        → contents q' ≡ contents q ++ (forward mem pid t (r.buffer (r.tail % r.capacity)) ∷ [])
        → Trace added removed
            (moves ++ ((t, r.buffer (r.tail % r.capacity)) ∷ []))
            (popped wfc shadow r)
            q'
    waits :
        {added removed : List LogEntry} {moves : Moves} {r q : Ring LogEntry}
        → Trace added removed moves r q
        → (s : ConsumerState) (n : ℕ)
        → Trace added removed moves (record r { consumer_state = s; notifications = n }) q
