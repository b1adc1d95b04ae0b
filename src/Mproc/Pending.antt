-- ===== src/Mproc/Pending.antt =====
-- The worker on a ring that no one else adds to (include/oneplog/logger.hpp).
use oneplog.Prelude.{
  ℕ, ◌%◌, ◌≤◌, ◌<◌, ◌≡◌, refl, ◌∙◌, sym, ap, Bool, true, false, not, ◌&&◌, Option, some, List, [],
  ◌∷◌, ltb, length, Bool-cases, inl, inr, arith,
}
use oneplog.RingBuffer.State.{Ring, ConsumerState}
use oneplog.RingBuffer.Inv.{IsValid, contents, released-IsValid}
use oneplog.RingBuffer.PopRefines.{popped, popped-IsValid, wfc_after}
use oneplog.RingBuffer.Wait.{EventFd}
use oneplog.RingBuffer.WaitKeeps.{Keeps, AllKeep, waiting-IsValid, wait_for_data-keeps}
use oneplog.Logger.Entry.{LogEntry}
use oneplog.Logger.Sinks.{World, SinkBinding, write_all_async, flush_all}
use oneplog.Logger.Drain.{write_each, pop_and_process-ready, pop_and_process-empty, drain_lem}
use oneplog.Logger.Loop.{Turn, process_available, worker_turn, worker_loop}

-- What neither adds entries nor takes any.
abbrev pub IsQuiet : (Ring LogEntry → Ring LogEntry) → Type 0
IsQuiet o = (r : Ring LogEntry) → IsValid r → IsValid (o r) × (contents (o r) ≡ contents r)

abbrev pub AllQuiet : List (Ring LogEntry → Ring LogEntry) → Type 0
AllQuiet [] = Unit {0}
AllQuiet (o ∷ os) = IsQuiet o × AllQuiet os

abbrev pub TurnsQuiet : List Turn → Type 0
TurnsQuiet [] = Unit {0}
TurnsQuiet (t ∷ turns) =
    (AllQuiet t.pops × AllQuiet t.polls × IsQuiet t.missed × IsQuiet t.before × IsQuiet t.during)
    × TurnsQuiet turns

module _ (bindings : List SinkBinding) (total : World) (n : ℕ) where
  -- What has been written, and after it what the ring holds, comes to `total`.
  record Pending (r : Ring LogEntry) (w : World) : Type 0 where
    valid : IsValid r
    sum : write_each bindings (contents r) w ≡ total
    few : length (contents r) ≤ n

  Pending-quiet :
      {r : Ring LogEntry} {w : World} (o : Ring LogEntry → Ring LogEntry)
      → IsQuiet o
      → Pending r w
      → Pending (o r) w
  Pending-quiet {r} {w} o q p =
      let h = q r p.valid in
      record {
        valid = h.0;
        sum = ap (λ es. write_each bindings es w) h.1 ∙ p.sum;
        few = rw h.1 p.few;
      }

  Pending-waits :
      {w : World} (r : Ring LogEntry) (s : ConsumerState) (k : ℕ)
      → Pending r w
      → Pending (record r { consumer_state = s; notifications = k }) w
  Pending-waits r s k p = record { valid = waiting-IsValid s k p.valid; sum = p.sum; few = p.few }

  AllQuiet-keep :
      (os : List (Ring LogEntry → Ring LogEntry)) (w : World)
      → AllQuiet os
      → AllKeep (λ r. Pending r w) Pending-waits os
  unfolding Keeps
  AllQuiet-keep [] w h = tt
  AllQuiet-keep (o ∷ os) w h = ((λ r p. Pending-quiet o h.0 p), AllQuiet-keep os w h.1)

  module _ (wfc shadow : Bool) where
    Pending-popped :
        (r : Ring LogEntry) (w : World)
        → Pending r w
        → r.tail < r.head
        → Pending
            (popped wfc shadow r)
            (write_all_async bindings (r.buffer (r.tail % r.capacity)) w)
    unfolding write_each
    Pending-popped r w p l =
        let rel =
          (released-IsValid (wfc_after wfc (r.slots (r.tail % r.capacity)).wfc) p.valid l).1 in
        record {
          valid = popped-IsValid wfc shadow p.valid l;
          sum = ap (λ es. write_each bindings es w) (sym rel) ∙ p.sum;
          few = omega (arith, p.few, ap length rel);
        }

    available-Pending :
        (pops : List (Ring LogEntry → Ring LogEntry)) (had : Bool) (r : Ring LogEntry) (w : World)
        → AllQuiet pops
        → Pending r w
        → let out = process_available bindings wfc shadow pops had r w in Pending out.2 out.3
    unfolding process_available
    available-Pending [] had r w h p = p
    available-Pending (o ∷ pops) had r w h p =
        let q = Pending-quiet o h.0 p in
        let r' = o r in
        elim (Bool-cases (ltb r'.tail r'.head)) [
          | inl some_left ↦
              let l : r'.tail < r'.head = ground arith in
              rw (pop_and_process-ready bindings shadow wfc r' w q.valid l) (
                available-Pending pops true (popped wfc shadow r')
                  (write_all_async bindings (r'.buffer (r'.tail % r'.capacity)) w) h.1
                  (Pending-popped r' w q l))
          | inr nothing ↦
              rw
                (pop_and_process-empty bindings shadow wfc r' w q.valid
                  (ground (arith, (q.valid).order)))
                q
        ]

    turn-Pending :
        (e : EventFd) (t : Turn) (r : Ring LogEntry) (w : World)
        → AllQuiet t.pops
          × AllQuiet t.polls
          × IsQuiet t.missed
          × IsQuiet t.before
          × IsQuiet t.during
        → Pending r w
        → let out = worker_turn bindings wfc shadow e t r w in Pending out.0 out.1
    unfolding worker_turn Keeps
    turn-Pending e t r w h p =
        let out = process_available bindings wfc shadow t.pops false r w in
        let after = available-Pending t.pops false r w h.0 p in
        elim (Bool-cases (not out.0 && (out.1 && t.still))) [
          | inl sleeps ↦ rw sleeps (
              wait_for_data-keeps (λ q. Pending q out.3) Pending-waits e t.polls t.missed t.before
                t.during out.2 (AllQuiet-keep t.polls out.3 h.1)
                (λ q s. Pending-quiet t.missed h.2 s) (λ q s. Pending-quiet t.before h.3 s)
                (λ q s. Pending-quiet t.during h.4 s) after)
          | inr goes_on ↦ rw goes_on after
        ]

    -- The worker has stopped.
    pub record Emptied (out : Option (Ring LogEntry × World)) : Type 0 where
      pub after : Ring LogEntry
      pub returned : out ≡ some (after, flush_all bindings total)
      pub valid : IsValid after
      pub empty : contents after ≡ []

    loop-Emptied :
        (e : EventFd) (fuel : ℕ) (turns : List Turn) (r : Ring LogEntry) (w : World)
        → n < fuel
        → TurnsQuiet turns
        → Pending r w
        → Emptied (worker_loop bindings wfc shadow e fuel turns r w)
    unfolding worker_loop
    loop-Emptied e fuel [] r w enough h p =
        let d = drain_lem bindings shadow wfc fuel r w p.valid (omega (arith, enough, p.few)) in
        record {
          after = d.after;
          returned =
              rw (worker_loop, d.returned) (ap (λ x. some (d.after, flush_all bindings x)) p.sum);
          valid = d.valid;
          empty = d.empty;
        }
    loop-Emptied e fuel (t ∷ turns) r w enough h p =
        let out = worker_turn bindings wfc shadow e t r w in
        loop-Emptied e fuel turns out.0 out.1 enough h.1 (turn-Pending e t r w h.0 p)

-- The worker that no one disturbs writes all that a valid ring holds, in order, and flushes.
pub worker_loop-Emptied :
    (bindings : List SinkBinding) (wfc shadow : Bool) (e : EventFd) (fuel : ℕ) (turns : List Turn)
    (r : Ring LogEntry) (w : World)
    → IsValid r
    → length (contents r) < fuel
    → TurnsQuiet turns
    → Emptied bindings
        (write_each bindings (contents r) w)
        (length (contents r))
        wfc
        shadow
        (worker_loop bindings wfc shadow e fuel turns r w)
worker_loop-Emptied bindings wfc shadow e fuel turns r w v enough h =
    loop-Emptied bindings (write_each bindings (contents r) w) (length (contents r)) wfc shadow e
      fuel turns r w enough h (record { valid = v; sum = refl; few = omega arith })
