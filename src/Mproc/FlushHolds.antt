-- ===== src/Mproc/FlushHolds.antt =====
-- What `Flush` waits for with shared memory (include/oneplog/logger.hpp).
use oneplog.Prelude.{ℕ, ◌+◌, ◌≤◌, ◌≡◌, Bool, true, Option, some, List, [], ◌∷◌, map, length}
use oneplog.RingBuffer.State.{Ring}
use oneplog.RingBuffer.Inv.{contents}
use oneplog.Snapshot.Format.{Printer}
use oneplog.Logger.Entry.{LogEntry}
use oneplog.Logger.Sinks.{World, SinkType, flush_all}
use oneplog.Mproc.Worker.{Rings}
use oneplog.Mproc.Messages.{message_bindings}
use oneplog.Mproc.Flush.{Others}
use oneplog.Mproc.DueRound.{Due}
use oneplog.Mproc.FlushRound.{Act, acts}

-- How many rounds of a kind there are in all sleeps.
abbrev pub in_all : (List Act → ℕ) → List (List Act) → ℕ
in_all count [] = 0
in_all count (xs ∷ sleeps) = count xs + in_all count sleeps

module _ (mem : ℕ → ℕ) (pid : ℕ) (wfc shadow : Bool) (p : Printer) (sinks : List SinkType)
    (total : World) where
  -- The sleeps of a wait, each with the rounds of the two threads in it.
  abbrev pub sleeping : List (List Act) → List Others
  sleeping sleeps = map (acts mem pid wfc shadow p sinks total) sleeps

  -- A wait has ended.
  record Waited (test : Rings → Bool) (r q : Ring LogEntry) (out : Option Rings) : Type 0 where
    heap : Ring LogEntry
    shared : Ring LogEntry
    world : World
    returned : out ≡ some (record { heap = heap; shared = some shared; world = world })
    due : Due mem pid wfc shadow p sinks total heap shared world
    done : test (record { heap = heap; shared = some shared; world = world }) ≡ true
    few : length (contents heap) ≤ length (contents r)
    fewer :
        length (contents heap) + length (contents shared)
        ≤ length (contents r) + length (contents q)

  -- Everything that was due is printed, and the sinks are flushed.
  pub record Flushed (out : Option Rings) : Type 0 where
    pub heap : Ring LogEntry
    pub shared : Ring LogEntry
    pub returned :
        out
        ≡ some (record {
          heap = heap;
          shared = some shared;
          world = flush_all (message_bindings p mem sinks) total;
        })
    pub heap_empty : contents heap ≡ []
    pub shared_empty : contents shared ≡ []
