-- ===== src/Pipeline/Thread.antt =====
-- `ThreadFunc` (include/oneplog/internal/pipeline_thread.hpp). A turn is one round of the outer loop
-- that finds `m_running` set.
use oneplog.Prelude.{ℕ, Bool, true, false, ◌&&◌, if◌then◌else◌, Option, none, some, List, [], ◌∷◌}
use oneplog.RingBuffer.State.{Ring, Cache}
use oneplog.RingBuffer.Pop.{try_pop}
use oneplog.RingBuffer.Wait.{EventFd, wait_for_data}
use oneplog.Logger.Entry.{LogEntry}
use oneplog.Pipeline.Forward.{Turn, process_entry, drain}

-- A test of `m_running` in the inner loop that finds it set: what the producers do before the pop
-- that follows, and what the users of the shared ring do between the pop and the push.
pub record Round : Type 0 where
  pub producers : Ring LogEntry → Ring LogEntry
  pub consumers : Ring LogEntry → Ring LogEntry
  pub turn : Turn

-- `still` is whether `m_running` is set before `WaitForData`, and the fields behind it are what the
-- producers do there.
pub record ThreadTurn : Type 0 where
  pub rounds : List Round
  pub still : Bool
  pub polls : List (Ring LogEntry → Ring LogEntry)
  pub missed : Ring LogEntry → Ring LogEntry
  pub before : Ring LogEntry → Ring LogEntry
  pub during : Ring LogEntry → Ring LogEntry

abbrev pub shared_after :
    (Ring LogEntry → Ring LogEntry) → Option (Ring LogEntry) → Option (Ring LogEntry)
shared_after others none = none
shared_after others (some q) = some (others q)

module _ (mem : ℕ → ℕ) (pid : ℕ) (wfc shadow : Bool) where
  -- The inner loop, and whether `m_running` was set at its last test.
  unfoldable pub forward_available :
      List Round
      → Cache
      → Ring LogEntry
      → Option (Ring LogEntry)
      → Option (Bool × Cache × Ring LogEntry × Option (Ring LogEntry))
  forward_available [] c heap shared = some (false, c, heap, shared)
  forward_available (t ∷ rounds) c heap shared =
      let (out, heap') = try_pop wfc shadow (t.producers heap) in
      elim out [
        | none ↦ some (true, c, heap', shared)
        | some e ↦
            elim (process_entry mem pid wfc shadow t.turn e c (shared_after t.consumers shared)) [
              | none ↦ none
              | some (c', shared') ↦ forward_available rounds c' heap' shared'
            ]
      ]

  unfoldable pub thread_turn :
      EventFd
      → ThreadTurn
      → Cache
      → Ring LogEntry
      → Option (Ring LogEntry)
      → Option (Cache × Ring LogEntry × Option (Ring LogEntry))
  thread_turn e t c heap shared = elim (forward_available t.rounds c heap shared) [
    | none ↦ none
    | some (running, c', heap', shared') ↦ some (
      c',
      if running && t.still
          then (wait_for_data e t.polls t.missed t.before t.during heap').1
          else heap',
      shared',
    )
  ]

  -- The turns, then the drain; none if a push or the drain does not end in the rounds given.
  unfoldable pub thread_func :
      EventFd
      → List ThreadTurn
      → List Turn
      → Cache
      → Ring LogEntry
      → Option (Ring LogEntry)
      → Option (Ring LogEntry × Cache × Option (Ring LogEntry))
  thread_func e [] last c heap shared = drain mem pid wfc shadow last c heap shared
  thread_func e (t ∷ turns) last c heap shared = elim (thread_turn e t c heap shared) [
    | none ↦ none
    | some (c', heap', shared') ↦ thread_func e turns last c' heap' shared'
  ]
