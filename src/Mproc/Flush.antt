-- ===== src/Mproc/Flush.antt =====
-- `Flush` with shared memory (include/oneplog/logger.hpp).
use oneplog.Prelude.{Bool, true, not, ◌||◌, if◌then◌else◌, Option, none, some, List, [], ◌∷◌}
use oneplog.RingBuffer.State.{Ring}
use oneplog.RingBuffer.Pop.{is_empty}
use oneplog.Logger.Entry.{LogEntry}
use oneplog.Logger.Sinks.{SinkBinding, flush_all}
use oneplog.Mproc.Worker.{Rings}

-- What other threads do while the caller sleeps.
abbrev pub Others : Type 0
Others = Rings → Rings

abbrev pub ring_is_empty : Option (Ring LogEntry) → Bool
ring_is_empty none = true
ring_is_empty (some r) = is_empty r

-- A loop that sleeps until the test holds; each element of the list is one sleep, and the result is
-- none if the test does not hold after them.
unfoldable pub wait_until : (Rings → Bool) → List Others → Rings → Option Rings
wait_until test [] s = if test s then some s else none
wait_until test (others ∷ sleeps) s =
    let rest = wait_until test sleeps (others s) in if test s then some s else rest

-- `has_ring` is `m_ringBuffer`; the shared ring is none if there is no shared memory.
unfoldable pub flush_mproc :
    List SinkBinding → Bool → List Others → List Others → Rings → Option Rings
flush_mproc bindings has_ring sleeps1 sleeps2 s =
    elim (wait_until (λ s. not has_ring || is_empty s.heap) sleeps1 s) [
      | none ↦ none
      | some s1 ↦ elim (wait_until (λ s. ring_is_empty s.shared) sleeps2 s1) [
        | none ↦ none
        | some s2 ↦ some (record s2 { world = flush_all bindings s2.world })
      ]
    ]
