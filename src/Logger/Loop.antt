-- ===== src/Logger/Loop.antt =====
-- `WorkerLoop` (include/oneplog/logger.hpp). A turn is one round of the outer loop
-- that finds `m_running` set; what other threads do meanwhile is given where the worker looks.
use oneplog.Prelude.{
  ℕ, Bool, true, false, not, ◌&&◌, if◌then◌else◌, Option, none, some, List, [], ◌∷◌,
}
use oneplog.RingBuffer.State.{Ring}
use oneplog.RingBuffer.Wait.{EventFd, wait_for_data}
use oneplog.Logger.Entry.{LogEntry}
use oneplog.Logger.Sinks.{World, SinkBinding, flush_all}
use oneplog.Logger.Worker.{pop_and_process, drain}

-- `pops` has an element for each test of `m_running` in the inner loop that finds it set: what others
-- do before the pop that follows; `still` is whether it is set before `WaitForData`, and the other
-- fields are what others do there.
pub record Turn : Type 0 where
  pub pops : List (Ring LogEntry → Ring LogEntry)
  pub still : Bool
  pub polls : List (Ring LogEntry → Ring LogEntry)
  pub missed : Ring LogEntry → Ring LogEntry
  pub before : Ring LogEntry → Ring LogEntry
  pub during : Ring LogEntry → Ring LogEntry

module _ (bindings : List SinkBinding) (wfc shadow : Bool) where
  -- The inner loop: `hasData`, whether `m_running` was set at its last test, and the new state.
  unfoldable pub process_available :
      List (Ring LogEntry → Ring LogEntry)
      → Bool
      → Ring LogEntry
      → World
      → Bool × Bool × Ring LogEntry × World
  process_available [] has_data r w = (has_data, false, r, w)
  process_available (others ∷ pops) has_data r w =
      let (got, r', w') = pop_and_process bindings wfc shadow (others r) w in
      let rest = process_available pops true r' w' in if got then rest else (has_data, true, r', w')

  unfoldable pub worker_turn : EventFd → Turn → Ring LogEntry → World → Ring LogEntry × World
  worker_turn e t r w =
      let (has_data, running, r', w') = process_available t.pops false r w in
      if not has_data && (running && t.still)
      then ((wait_for_data e t.polls t.missed t.before t.during r').1, w')
      else (r', w')

  -- The turns, then the drain and the flush; none if the rounds given to the drain do not suffice.
  unfoldable pub worker_loop :
      EventFd → ℕ → List Turn → Ring LogEntry → World → Option (Ring LogEntry × World)
  worker_loop e fuel [] r w = elim (drain bindings wfc shadow fuel r w) [
    | none ↦ none
    | some (r', w') ↦ some (r', flush_all bindings w')
  ]
  worker_loop e fuel (t ∷ turns) r w =
      let (r', w') = worker_turn e t r w in worker_loop e fuel turns r' w'
