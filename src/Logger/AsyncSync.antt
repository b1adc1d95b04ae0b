-- ===== src/Logger/AsyncSync.antt =====
-- Logging through the ring against logging directly (include/oneplog/logger.hpp).
use oneplog.Prelude.{
  ℕ, ◌≡◌, refl, ◌∙◌, ap, Bool, true, false, ◌||◌, if◌then◌else◌, Option, some, List, [], ◌∷◌, map,
  Bool-cases, inl, inr,
}
use oneplog.Common.Level.{Level}
use oneplog.Snapshot.Capture.{Snapshot, Arg}
use oneplog.RingBuffer.State.{Ring}
use oneplog.RingBuffer.Inv.{IsValid, contents}
use oneplog.Logger.Entry.{LogEntry}
use oneplog.Logger.Sinks.{
  World, Format, SinkBinding, format_entry, sink_write, write_sync, write_async, write_all_sync,
  write_all_async, needs_timestamp, needs_thread_id, needs_process_id, take_snapshot,
}
use oneplog.Logger.Log.{Call, make_entry, log_impl_sync}
use oneplog.Logger.Drain.{write_each}

-- Draining returned a valid, empty ring and the streams given.
pub record Finished (w : World) (out : Option (Ring LogEntry × World)) : Type 0 where
  pub after : Ring LogEntry
  pub returned : out ≡ some (after, w)
  pub valid : IsValid after
  pub empty : contents after ≡ []

-- A format that does not ask for the timestamp gives the same text whatever the timestamp.
unfoldable pub IsHonest : Format → Type 0
IsHonest f =
    f.needs_timestamp ≡ false
    → (level : Level) (t t' tid pid : ℕ) (s : Snapshot)
    → f.format_fields level t tid pid s ≡ f.format_fields level t' tid pid s

abbrev pub AllHonest : List SinkBinding → Type 0
AllHonest [] = Unit {0}
AllHonest (b ∷ bs) = IsHonest b.format × AllHonest bs

-- The calls logged one after the other in Sync mode.
unfoldable pub log_all_sync : List SinkBinding → List Call → World → World
log_all_sync bindings [] w = w
log_all_sync bindings (c ∷ calls) w = log_all_sync bindings calls (log_impl_sync bindings c w)

-- Writing an entry is writing its fields; a timestamp that is not asked for may be another.
format-same :
    (f : Format)
    → IsHonest f
    → (level : Level) (t t' tid pid : ℕ) (s : Snapshot) → (f.needs_timestamp ≡ true → t ≡ t')
    → f.format_fields level t tid pid s ≡ f.format_fields level t' tid pid s
unfolding IsHonest
format-same f honest level t t' tid pid s same = elim (Bool-cases f.needs_timestamp) [
  | inl needed ↦ ap (λ x. f.format_fields level x tid pid s) (same needed)
  | inr free ↦ honest free level t t' tid pid s
]

write_all-same :
    (bs : List SinkBinding)
    → AllHonest bs
    → (level : Level) (t t' tid pid : ℕ) (junk : ℕ → ℕ) (ptr len : ℕ) (args : List Arg) (w : World)
    → (needs_timestamp bs ≡ true → t ≡ t')
    → write_all_sync bs level t tid pid junk ptr len args w
      ≡ write_all_async bs
          (record {
            timestamp = t';
            thread_id = tid;
            process_id = pid;
            level = level;
            snapshot = take_snapshot junk ptr len args;
          })
          w
unfolding write_all_sync write_all_async write_sync write_async format_entry needs_timestamp
write_all-same [] h level t t' tid pid junk ptr len args w same = refl
write_all-same (b ∷ bs) h level t t' tid pid junk ptr len args w same =
    let text =
      format-same b.format h.0 level t t' tid pid (take_snapshot junk ptr len args)
        (λ e. same (ap (λ x. x || needs_timestamp bs) e)) in
    let rest : needs_timestamp bs ≡ true → t ≡ t' =
      λ e. same (ap (λ x. b.format.needs_timestamp || x) e ∙ or_true b.format.needs_timestamp) in
    ap (λ x. write_all_sync bs level t tid pid junk ptr len args (sink_write b.sink x w)) text
    ∙ write_all-same bs h.1 level t t' tid pid junk ptr len args
        (sink_write b.sink
          (b.format.format_fields level t' tid pid (take_snapshot junk ptr len args)) w)
        rest
  where
    or_true : (b : Bool) → (b || true) ≡ true
    or_true true = refl
    or_true false = refl

-- An entry written is its call logged in Sync mode.
log_sync-same :
    (bs : List SinkBinding)
    → AllHonest bs
    → (c : Call) (w : World) → log_impl_sync bs c w ≡ write_all_async bs (make_entry bs c) w
unfolding log_impl_sync make_entry
log_sync-same bs h c w =
    write_all-same bs h c.level (if needs_timestamp bs then c.now else 0) c.now
      (if needs_thread_id bs then c.thread_id else 0)
      (if needs_process_id bs then c.process_id else 0) c.junk c.fmt_ptr c.fmt_len c.args w
      (λ e. rw e refl)

pub log_all-same :
    (bs : List SinkBinding)
    → AllHonest bs
    → (calls : List Call) (w : World)
    → log_all_sync bs calls w ≡ write_each bs (map (make_entry bs) calls) w
unfolding log_all_sync write_each
log_all-same bs h [] w = refl
log_all-same bs h (c ∷ calls) w =
    ap (log_all_sync bs calls) (log_sync-same bs h c w)
    ∙ log_all-same bs h calls (write_all_async bs (make_entry bs c) w)
