-- ===== src/Logger/Levels.antt =====
-- The calls by level and `LogImpl` (include/oneplog/logger.hpp).
use oneplog.Prelude.{
  ◌≡◌, refl, ◌&&◌, Bool, true, false, if◌then◌else◌, leb, Option, none, some, List, [], ◌∷◌,
  Bool-cases, inl, inr,
}
use oneplog.Common.Level.{
  Level, trace, debug, info, warn, error, critical, off, level_value, Mode, sync, async, mproc,
  should_log,
}
use oneplog.RingBuffer.State.{Ring, Cache}
use oneplog.RingBuffer.Acquire.{Schedule}
use oneplog.Logger.Entry.{LogEntry}
use oneplog.Logger.Sinks.{World, SinkBinding}
use oneplog.Logger.Log.{Call, log_impl_sync, log_impl_async, log_impl_wfc}
use oneplog.Logger.AsyncSync.{log_all_sync}

-- What a call changes: the cache of the thread, the ring, which may be missing, and the streams.
pub record Logging : Type 0 where
  pub cache : Cache
  pub ring : Option (Ring LogEntry)
  pub world : World

module _ (bindings : List SinkBinding) (wfc shadow : Bool) where
  unfoldable pub log_impl : Mode → Schedule LogEntry → Call → Logging → Option Logging
  log_impl sync sched call s = some (record s { world = log_impl_sync bindings call s.world })
  log_impl async sched call s =
      elim (log_impl_async bindings wfc shadow sched call s.cache s.ring) [
        | none ↦ none
        | some (c', r') ↦ some (record s { cache = c'; ring = r' })
      ]
  log_impl mproc sched call s =
      elim (log_impl_async bindings wfc shadow sched call s.cache s.ring) [
        | none ↦ none
        | some (c', r') ↦ some (record s { cache = c'; ring = r' })
      ]

  -- `LogImplWFC`, with what others do while it waits.
  unfoldable pub log_wfc :
      Schedule LogEntry → List (Ring LogEntry → Ring LogEntry) → Call → Logging → Option Logging
  log_wfc sched rounds call s =
      elim (log_impl_wfc bindings shadow sched rounds call s.cache s.ring) [
        | none ↦ none
        | some (done, c', r') ↦ some (record s { cache = c'; ring = r' })
      ]

  module _ (mode : Mode) (min_level : Level) where
    -- The test that each call makes when it is compiled.
    abbrev log_at : Level → Schedule LogEntry → Call → Logging → Option Logging
    log_at l sched call s =
        if leb (level_value min_level) (level_value l)
        then log_impl mode sched (record call { level = l }) s
        else some s

    unfoldable pub log_trace : Schedule LogEntry → Call → Logging → Option Logging
    log_trace = log_at trace

    unfoldable pub log_debug : Schedule LogEntry → Call → Logging → Option Logging
    log_debug = log_at debug

    unfoldable pub log_info : Schedule LogEntry → Call → Logging → Option Logging
    log_info = log_at info

    unfoldable pub log_warn : Schedule LogEntry → Call → Logging → Option Logging
    log_warn = log_at warn

    unfoldable pub log_error : Schedule LogEntry → Call → Logging → Option Logging
    log_error = log_at error

    unfoldable pub log_critical : Schedule LogEntry → Call → Logging → Option Logging
    log_critical = log_at critical

    abbrev log_wfc_at :
        Level
        → Schedule LogEntry
        → List (Ring LogEntry → Ring LogEntry)
        → Call
        → Logging
        → Option Logging
    log_wfc_at l sched rounds call s =
        if leb (level_value min_level) (level_value l)
        then log_wfc sched rounds (record call { level = l }) s
        else some s

    unfoldable pub log_trace_wfc :
        Schedule LogEntry → List (Ring LogEntry → Ring LogEntry) → Call → Logging → Option Logging
    log_trace_wfc = log_wfc_at trace

    unfoldable pub log_debug_wfc :
        Schedule LogEntry → List (Ring LogEntry → Ring LogEntry) → Call → Logging → Option Logging
    log_debug_wfc = log_wfc_at debug

    unfoldable pub log_info_wfc :
        Schedule LogEntry → List (Ring LogEntry → Ring LogEntry) → Call → Logging → Option Logging
    log_info_wfc = log_wfc_at info

    unfoldable pub log_warn_wfc :
        Schedule LogEntry → List (Ring LogEntry → Ring LogEntry) → Call → Logging → Option Logging
    log_warn_wfc = log_wfc_at warn

    unfoldable pub log_error_wfc :
        Schedule LogEntry → List (Ring LogEntry → Ring LogEntry) → Call → Logging → Option Logging
    log_error_wfc = log_wfc_at error

    unfoldable pub log_critical_wfc :
        Schedule LogEntry → List (Ring LogEntry → Ring LogEntry) → Call → Logging → Option Logging
    log_critical_wfc = log_wfc_at critical

    -- The method of a level; there is none for `off`.
    abbrev pub log_by : Level → Schedule LogEntry → Call → Logging → Option Logging
    log_by trace = log_trace
    log_by debug = log_debug
    log_by info = log_info
    log_by warn = log_warn
    log_by error = log_error
    log_by critical = log_critical
    log_by off = λ sched call s. some s

  -- Calls one after the other, each by the method of its level.
  unfoldable pub log_all_by :
      Mode → Level → List (Schedule LogEntry × Call) → Logging → Option Logging
  log_all_by mode min_level [] s = some s
  log_all_by mode min_level (c ∷ calls) s = elim (log_by mode min_level c.1.level c.0 c.1 s) [
    | none ↦ none
    | some s' ↦ log_all_by mode min_level calls s'
  ]

-- A call that has a method and that the level lets pass.
abbrev pub passes : Level → Call → Bool
passes min_level call = leb (level_value call.level) 5 && should_log call.level min_level

abbrev pub passing : Level → List (Schedule LogEntry × Call) → List Call
passing min_level [] = []
passing min_level (c ∷ calls) =
    if passes min_level c.1 then c.1 ∷ passing min_level calls else passing min_level calls

module _ (bindings : List SinkBinding) (wfc shadow : Bool) where
  log_by-passes :
      (min_level : Level) (sched : Schedule LogEntry) (call : Call) (s : Logging)
      → passes min_level call ≡ true
      → log_by bindings wfc shadow sync min_level call.level sched call s
        ≡ some (record s { world = log_impl_sync bindings call s.world })
  unfolding log_trace log_debug log_info log_warn log_error log_critical log_impl should_log
  log_by-passes min_level sched call s h = by_level call.level refl h
    where
      by_level :
          (l : Level)
          → call.level ≡ l
          → (leb (level_value l) 5 && should_log l min_level) ≡ true
          → log_by bindings wfc shadow sync min_level l sched call s
            ≡ some (record s { world = log_impl_sync bindings call s.world })
      by_level trace e h = rw (h, ← e) refl
      by_level debug e h = rw (h, ← e) refl
      by_level info e h = rw (h, ← e) refl
      by_level warn e h = rw (h, ← e) refl
      by_level error e h = rw (h, ← e) refl
      by_level critical e h = rw (h, ← e) refl
      by_level off e h = cc

  log_by-stops :
      (min_level : Level) (sched : Schedule LogEntry) (call : Call) (s : Logging)
      → passes min_level call ≡ false
      → log_by bindings wfc shadow sync min_level call.level sched call s ≡ some s
  unfolding log_trace log_debug log_info log_warn log_error log_critical should_log
  log_by-stops min_level sched call s h = by_level call.level h
    where
      by_level :
          (l : Level)
          → (leb (level_value l) 5 && should_log l min_level) ≡ false
          → log_by bindings wfc shadow sync min_level l sched call s ≡ some s
      by_level trace h = rw h refl
      by_level debug h = rw h refl
      by_level info h = rw h refl
      by_level warn h = rw h refl
      by_level error h = rw h refl
      by_level critical h = rw h refl
      by_level off h = refl

  -- In synchronous mode the methods by level write what `LogImplSync` writes for the calls that
  -- `ShouldLog` lets pass, in order, and do nothing else; there is no method for `off`.
  pub log_all_by-sync :
      (min_level : Level) (calls : List (Schedule LogEntry × Call)) (s : Logging)
      → log_all_by bindings wfc shadow sync min_level calls s
        ≡ some (record s { world = log_all_sync bindings (passing min_level calls) s.world })
  unfolding log_all_by log_all_sync
  log_all_by-sync min_level [] s = refl
  log_all_by-sync min_level (c ∷ calls) s = elim (Bool-cases (passes min_level c.1)) [
    | inl passing_one ↦
        rw (log_all_by, log_by-passes min_level c.0 c.1 s passing_one, passing_one)
          (log_all_by-sync min_level calls
            (record s { world = log_impl_sync bindings c.1 s.world }))
    | inr stopped ↦
        rw (log_all_by, log_by-stops min_level c.0 c.1 s stopped, stopped)
          (log_all_by-sync min_level calls s)
  ]
