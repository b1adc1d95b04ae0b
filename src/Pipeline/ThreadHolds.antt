-- ===== src/Pipeline/ThreadHolds.antt =====
-- What the main loop of the pipeline moves (include/oneplog/internal/pipeline_thread.hpp).
use oneplog.Prelude.{
  ℕ, ◌+◌, ◌≤◌, ◌<◌, ◌≡◌, refl, ◌∙◌, sym, Bool, ◌&&◌, Option, some, List, [], ◌∷◌, append-nil, arith,
  Bool-cases, inl, inr, length,
}
use oneplog.RingBuffer.State.{Ring, Cache, size_mod}
use oneplog.RingBuffer.Inv.{IsValid, contents}
use oneplog.RingBuffer.PushSmall.{IsSmall}
use oneplog.RingBuffer.Wait.{EventFd, wait_for_data}
use oneplog.RingBuffer.WaitKeeps.{wait_for_data-keeps}
use oneplog.Logger.Entry.{LogEntry}
use oneplog.Pipeline.Forward.{Turn, drain}
use oneplog.Pipeline.Thread.{ThreadTurn, thread_turn, thread_func}
use oneplog.Pipeline.Trace.{
  Action, OnlyGrows, LeavesRoom, AllProduce, RoundsHold, TurnsHold, rounds_of, Moves, begins,
}
use oneplog.Pipeline.Reach.{Reached, Reached-on_wait, Keeps-grown, AllKeep-grown}
use oneplog.Pipeline.Available.{available-Forwarded}

module _ (mem : ℕ → ℕ) (pid : ℕ) (r0 q0 : Ring LogEntry) (wfc shadow : Bool)
    (IsProducer IsConsumer : Action → Type 0) where
  record Turned (c : Cache) (moves : Moves) (rounds : ℕ)
      (out : Option (Cache × Ring LogEntry × Option (Ring LogEntry))) : Type 0 where
    heap : Ring LogEntry
    shared : Ring LogEntry
    more : Moves
    returned : out ≡ some (c, heap, some shared)
    reached : Reached mem pid r0 q0 wfc shadow IsProducer IsConsumer more heap shared
    few : length more ≤ length moves + rounds

  -- The thread has come to its drain.
  pub record Drains (c : Cache) (last : List Turn)
      (out : Option (Ring LogEntry × Cache × Option (Ring LogEntry))) : Type 0 where
    pub heap : Ring LogEntry
    pub shared : Ring LogEntry
    pub moves : Moves
    pub reached : Reached mem pid r0 q0 wfc shadow IsProducer IsConsumer moves heap shared
    pub returned : out ≡ drain mem pid wfc shadow last c heap (some shared)

  thread_func-next :
      (e : EventFd) (t : ThreadTurn) (turns : List ThreadTurn) (last : List Turn) (c c' : Cache)
      (r r' q : Ring LogEntry) (shared' : Option (Ring LogEntry))
      → thread_turn mem pid wfc shadow e t c r (some q) ≡ some (c', r', shared')
      → thread_func mem pid wfc shadow e (t ∷ turns) last c r (some q)
        ≡ thread_func mem pid wfc shadow e turns last c' r' shared'
  unfolding thread_func
  thread_func-next e t turns last c c' r r' q shared' done = rw (thread_func, done) refl

  module _ (s : IsSmall shadow q0) (grow : (o : Action) → IsProducer o → OnlyGrows o)
      (shrink : (o : Action) → IsConsumer o → LeavesRoom o) where
    thread_turn-Turned :
        (e : EventFd) (t : ThreadTurn) (c : Cache) (moves : Moves) (r q : Ring LogEntry)
        → RoundsHold IsProducer IsConsumer t.rounds
          × AllProduce IsProducer IsConsumer t.polls
          × IsProducer t.missed
          × IsProducer t.before
          × IsProducer t.during
        → Reached mem pid r0 q0 wfc shadow IsProducer IsConsumer moves r q
        → q0.head + (length moves + length t.rounds) < size_mod
        → Turned c moves (length t.rounds) (thread_turn mem pid wfc shadow e t c r (some q))
    unfolding thread_turn
    thread_turn-Turned e t c moves r q h a fits =
        let f =
          available-Forwarded mem pid r0 q0 wfc shadow IsProducer IsConsumer s grow shrink t.rounds
            c moves r q h.0 a fits in
        let kept = λ (o : Action) (is : IsProducer o).
          Keeps-grown mem pid r0 q0 wfc shadow IsProducer IsConsumer f.more f.shared o is
            (grow o is) in
        let waited =
          wait_for_data-keeps
            (λ r'. Reached mem pid r0 q0 wfc shadow IsProducer IsConsumer f.more r' f.shared)
            (Reached-on_wait mem pid r0 q0 wfc shadow IsProducer IsConsumer) e t.polls t.missed
            t.before t.during f.heap
            (AllKeep-grown mem pid r0 q0 wfc shadow IsProducer IsConsumer f.more f.shared t.polls
              grow h.1)
            (kept t.missed h.2) (kept t.before h.3) (kept t.during h.4) f.reached in
        elim (Bool-cases (f.running && t.still)) [
          | inl sleeps ↦ record {
            heap = (wait_for_data e t.polls t.missed t.before t.during f.heap).1;
            shared = f.shared;
            more = f.more;
            returned = rw (thread_turn, f.returned, sleeps) refl;
            reached = waited;
            few = f.few;
          }
          | inr goes_on ↦ record {
            heap = f.heap;
            shared = f.shared;
            more = f.more;
            returned = rw (thread_turn, f.returned, goes_on) refl;
            reached = f.reached;
            few = f.few;
          }
        ]

    loop-Drains :
        (e : EventFd) (turns : List ThreadTurn) (last : List Turn) (c : Cache) (moves : Moves)
        (r q : Ring LogEntry)
        → TurnsHold IsProducer IsConsumer turns
        → Reached mem pid r0 q0 wfc shadow IsProducer IsConsumer moves r q
        → q0.head + (length moves + rounds_of turns) < size_mod
        → Drains c last (thread_func mem pid wfc shadow e turns last c r (some q))
    unfolding thread_func
    loop-Drains e [] last c moves r q h a fits = record {
      heap = r;
      shared = q;
      moves = moves;
      reached = a;
      returned = refl;
    }
    loop-Drains e (t ∷ turns) last c moves r q h a fits =
        let f = thread_turn-Turned e t c moves r q h.0 a (omega (arith, fits)) in
        let ih =
          loop-Drains e turns last c f.more f.heap f.shared h.1 f.reached
            (omega (arith, fits, f.few)) in
        record {
          heap = ih.heap;
          shared = ih.shared;
          moves = ih.moves;
          reached = ih.reached;
          returned =
              thread_func-next e t turns last c c r f.heap q (some f.shared) f.returned
              ∙ ih.returned;
        }

    -- Where producers only add entries to a valid ring of the process, and before each push the
    -- users of the valid shared ring, which takes the small queue's path (no shadow tail, or at most
    -- 32 places) and whose head does not wrap around, only take its oldest entries and leave room for
    -- one, `ThreadFunc` comes to its drain once `m_running` is false, whatever its turns were. The
    -- rings are then reached by steps each of which is an action of one of these producers or users on
    -- the ring as it stood, or a pop of the oldest entry with its push. Of the entries that the ring
    -- of the process held or was given by the producers, it has forwarded the oldest, and the ring
    -- holds the others; the shared ring has got those forwarded behind its own, each once, in order,
    -- converted and with the process id, less those that its users took from its front.
    pub thread_func-Drains :
        (e : EventFd) (turns : List ThreadTurn) (last : List Turn) (c : Cache)
        → TurnsHold IsProducer IsConsumer turns
        → IsValid r0
        → IsValid q0
        → q0.head + rounds_of turns < size_mod
        → Drains c last (thread_func mem pid wfc shadow e turns last c r0 (some q0))
    thread_func-Drains e turns last c h v u fits =
        loop-Drains e turns last c [] r0 q0 h
          (record {
            added = [];
            removed = [];
            trace = begins;
            heap_valid = v;
            shared_valid = u;
            taken = sym (append-nil (contents r0));
            delivered = sym (append-nil (contents q0));
            next_head = omega arith;
            same_capacity = refl;
          })
          (omega (arith, fits))
