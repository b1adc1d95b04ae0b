-- ===== src/Logger/FlushHolds.antt =====
-- What `Flush` has written when it returns, in asynchronous mode (include/oneplog/logger.hpp).
use oneplog.Prelude.{
  ◌≡◌, Bool, true, Option, some, List, [], ◌∷◌, ◌++◌, ltb, Bool-cases, inl, inr, arith,
}
use oneplog.RingBuffer.State.{Ring}
use oneplog.RingBuffer.Inv.{IsValid, contents}
use oneplog.RingBuffer.Pop.{is_empty}
use oneplog.RingBuffer.PopRefines.{contents-empty}
use oneplog.Logger.Entry.{LogEntry}
use oneplog.Logger.Log.{Call}
use oneplog.Logger.Sinks.{World, SinkBinding, flush_all}
use oneplog.Logger.System.{Runs}
use oneplog.Logger.AsyncSync.{log_all_sync}
use oneplog.Logger.Flush.{Others, is_empty-ready}

pub is_empty-contents : {r : Ring LogEntry} → IsValid r → is_empty r ≡ true → contents r ≡ []
is_empty-contents {r} v h = elim (Bool-cases (ltb r.tail r.head)) [
  | inl some_left ↦ absurd (cc (is_empty-ready v (ground arith)))
  | inr nothing ↦ contents-empty r (ground (arith, v.order))
]

module _ (bindings : List SinkBinding) (wfc shadow : Bool) (r0 : Ring LogEntry) (w0 : World) where
  -- The ring has taken more calls since, or none.
  pub record Went (calls : List Call) (s : Ring LogEntry × World) : Type 0 where
    pub more : List Call
    pub runs : Runs bindings wfc shadow r0 w0 (calls ++ more) s.0 s.1

  -- What happens in a sleep is that threads log, the worker takes rounds, and it waits.
  unfoldable pub OnlyRuns : Others → Type 0
  OnlyRuns o =
      (calls : List Call) (r : Ring LogEntry) (w : World)
      → Runs bindings wfc shadow r0 w0 calls r w
      → Went calls (o (r, w))

  abbrev pub AllOnlyRun : List Others → Type 0
  AllOnlyRun [] = Unit {0}
  AllOnlyRun (o ∷ os) = OnlyRuns o × AllOnlyRun os

  -- The state after all sleeps.
  unfoldable pub after_sleeps : List Others → Ring LogEntry × World → Ring LogEntry × World
  after_sleeps [] s = s
  after_sleeps (o ∷ os) s = after_sleeps os (o s)

  -- `Flush` has returned with an empty ring, and has written and flushed what the calls that the ring
  -- had taken by then would have written in Sync mode: those that it had taken before, and `more`.
  pub record Flushed (calls : List Call) (out : Option (Ring LogEntry × World)) : Type 0 where
    pub more : List Call
    pub after : Ring LogEntry
    pub world : World
    pub runs : Runs bindings wfc shadow r0 w0 (calls ++ more) after world
    pub returned : out ≡ some (after, flush_all bindings (log_all_sync bindings (calls ++ more) w0))
    pub empty : contents after ≡ []
