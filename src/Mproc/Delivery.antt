-- ===== src/Mproc/Delivery.antt =====
-- Two processes stop, the one that connected first and then the owner (include/oneplog/logger.hpp).
use oneplog.Prelude.{ℕ, ◌+◌, ◌≤◌, ◌<◌, Bool, Option, none, some, List, ◌++◌, map, length}
use oneplog.RingBuffer.State.{Ring, Cache, size_mod}
use oneplog.RingBuffer.Inv.{IsValid, contents}
use oneplog.Snapshot.Format.{Printer}
use oneplog.Logger.Entry.{LogEntry}
use oneplog.Logger.Sinks.{World, SinkType, SinkBinding}
use oneplog.Logger.Lifecycle.{Threads}
use oneplog.Pipeline.Message.{message}
use oneplog.Mproc.Pending.{TurnsQuiet}
use oneplog.Mproc.Worker.{Rounds, Rings, stop_rings}
use oneplog.Mproc.Join.{Movable}
use oneplog.Mproc.Stop.{IsOwner, IsConnected}

-- What a process needs besides its rings, for both: memory, id, bindings, threads, rounds and cache.
pub record Process : Type 0 where
  pub mem : ℕ → ℕ
  pub pid : ℕ
  pub bindings : List SinkBinding
  pub threads : Threads
  pub rounds : Rounds
  pub cache : Cache

module _ (wfc shadow : Bool) where
  unfoldable pub stop_process : Process → Rings → Option Rings
  stop_process a s = stop_rings a.mem a.pid a.bindings wfc shadow a.threads a.rounds a.cache s

  -- The shared ring is handed on; each process has its own ring and sinks.
  unfoldable pub stop_both :
      Process
      → Process
      → Ring LogEntry
      → Ring LogEntry
      → Ring LogEntry
      → World
      → World
      → Option Rings
  stop_both a b r1 r2 q w1 w2 =
      elim (stop_process a (record { heap = r1; shared = some q; world = w1 })) [
        | none ↦ none
        | some s ↦ stop_process b (record { heap = r2; shared = s.shared; world = w2 })
      ]

-- The rings and the rounds of two processes that stop one after the other.
pub record BothReady (shadow : Bool) (a b : Process) (r1 r2 q : Ring LogEntry) : Type 0 where
  pub connected : IsConnected a.threads
  pub owner : IsOwner b.threads
  pub first : Movable shadow a.rounds r1 q
  pub second_valid : IsValid r2
  pub second_turns : length (contents r2) < length (b.rounds).last
  pub fuel_enough :
      length (contents q) + (length (contents r1) + length (contents r2)) < (b.rounds).fuel
  pub room : length (contents q) + (length (contents r1) + length (contents r2)) ≤ q.capacity
  pub fits : q.head + (length (contents r1) + length (contents r2)) < size_mod
  pub quiet : TurnsQuiet (b.rounds).turns

module _ (wfc shadow : Bool) (p : Printer) (sinks : List SinkType) (a b : Process)
    (r1 r2 q : Ring LogEntry) (w1 w2 : World) where
  -- The messages that are due: those of the entries in the shared ring as the owner prints them, and
  -- those of each process' ring as that process itself would print them.
  abbrev pub due : List (List ℕ)
  due =
      map (message p b.mem) (contents q)
      ++ (map (message p a.mem) (contents r1) ++ map (message p b.mem) (contents r2))
