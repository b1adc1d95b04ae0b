-- ===== src/Logger/LoopHolds.antt =====
-- What the worker has written when it stops (include/oneplog/logger.hpp).
use oneplog.Prelude.{ℕ, ◌≡◌, Bool, Option, some, List, [], ◌∷◌}
use oneplog.RingBuffer.State.{Ring, ConsumerState}
use oneplog.RingBuffer.Inv.{IsValid, contents}
use oneplog.RingBuffer.Wait.{EventFd}
use oneplog.RingBuffer.WaitKeeps.{Keeps}
use oneplog.Logger.Entry.{LogEntry}
use oneplog.Logger.Log.{Call}
use oneplog.Logger.Sinks.{World, SinkBinding, flush_all}
use oneplog.Logger.Loop.{Turn, worker_turn}
use oneplog.Logger.System.{Runs, waited}
use oneplog.Logger.AsyncSync.{log_all_sync}

module _ (bindings : List SinkBinding) (wfc shadow : Bool) (r0 : Ring LogEntry) (w0 : World) where
  -- A state that is reached when the ring has taken some calls.
  pub record At (r : Ring LogEntry) (w : World) : Type 0 where
    pub calls : List Call
    pub runs : Runs bindings wfc shadow r0 w0 calls r w

  -- What the state of the consumer and the event descriptor do to it.
  pub At-waits :
      {w : World} (r : Ring LogEntry) (s : ConsumerState) (n : ℕ)
      → At r w
      → At (record r { consumer_state = s; notifications = n }) w
  At-waits r s n a = record { calls = a.calls; runs = waited a.runs s n }

  -- What other threads do is to log.
  unfoldable pub OnlyLogs : (Ring LogEntry → Ring LogEntry) → Type 0
  OnlyLogs o = (w : World) → Keeps (λ r. At r w) At-waits o

  abbrev pub AllOnlyLog : List (Ring LogEntry → Ring LogEntry) → Type 0
  AllOnlyLog [] = Unit {0}
  AllOnlyLog (o ∷ os) = OnlyLogs o × AllOnlyLog os

  abbrev pub TurnLogs : Turn → Type 0
  TurnLogs t =
      AllOnlyLog t.pops
      × AllOnlyLog t.polls
      × OnlyLogs t.missed
      × OnlyLogs t.before
      × OnlyLogs t.during

  abbrev pub AllTurnsLog : List Turn → Type 0
  AllTurnsLog [] = Unit {0}
  AllTurnsLog (t ∷ turns) = TurnLogs t × AllTurnsLog turns

  -- The worker has stopped with a valid, empty ring, from the state `at` that its last turn left,
  -- having written and flushed what the calls that the ring had taken would have written in Sync mode.
  pub record Stopped (at : Ring LogEntry × World) (out : Option (Ring LogEntry × World))
      : Type 0 where
    pub calls : List Call
    pub runs : Runs bindings wfc shadow r0 w0 calls at.0 at.1
    pub after : Ring LogEntry
    pub returned : out ≡ some (after, flush_all bindings (log_all_sync bindings calls w0))
    pub valid : IsValid after
    pub empty : contents after ≡ []

  -- The state that the turns lead to.
  unfoldable pub after_turns : EventFd → List Turn → Ring LogEntry → World → Ring LogEntry × World
  after_turns e [] r w = (r, w)
  after_turns e (t ∷ turns) r w =
      let (r', w') = worker_turn bindings wfc shadow e t r w in after_turns e turns r' w'
