-- ===== src/Mproc/FlushRound.antt =====
-- What the pipeline and the worker do while `Flush` sleeps (include/oneplog/logger.hpp).
use oneplog.Prelude.{
  ℕ, suc, ◌+◌, ◌-◌, ◌%◌, ◌<◌, ◌≤◌, ◌≡◌, refl, ◌∙◌, sym, ap, subst, Bool, some, List, [], ◌∷◌, ◌++◌,
  map, map-append, append_assoc, ltb, length, length-append, Bool-cases, inl, inr, arith,
}
use oneplog.RingBuffer.State.{Ring, Cache}
use oneplog.RingBuffer.Inv.{IsValid, contents, length-contents, released-IsValid}
use oneplog.RingBuffer.PopRefines.{popped, popped-IsValid, try_pop-ready, try_pop-empty, wfc_after}
use oneplog.Snapshot.Format.{Printer}
use oneplog.Logger.Entry.{LogEntry}
use oneplog.Logger.Sinks.{World, SinkType}
use oneplog.Pipeline.Forward.{Turn, forward, process_entry}
use oneplog.Pipeline.Message.{message, IsPortable, ArePortable, forward-message}
use oneplog.Pipeline.Drain.{process_entry-room}
use oneplog.Mproc.Worker.{Rings}
use oneplog.Mproc.Messages.{message_bindings, print_each}
use oneplog.Mproc.Flush.{Others}
use oneplog.Mproc.DueRound.{pipeline_round, worker_round, Due, worker_round-Written}

-- A round of one of the two threads, each entry with what happens during its push.
pub data Act : Type 0 where
  forwards : Turn → Cache → Act
  writes : Act

-- How many rounds of the pipeline there are.
abbrev pub forward_count : List Act → ℕ
forward_count [] = 0
forward_count (forwards t c ∷ xs) = suc (forward_count xs)
forward_count (writes ∷ xs) = forward_count xs

-- How many rounds of the worker there are.
abbrev pub write_count : List Act → ℕ
write_count [] = 0
write_count (forwards t c ∷ xs) = write_count xs
write_count (writes ∷ xs) = suc (write_count xs)

module _ (mem : ℕ → ℕ) (pid : ℕ) (wfc shadow : Bool) (p : Printer) (sinks : List SinkType)
    (total : World) where
  abbrev pub act : Act → Others
  act (forwards t c) s = pipeline_round mem pid wfc shadow t c s
  act writes s = worker_round (message_bindings p mem sinks) wfc shadow s

  -- What the two threads do in one sleep.
  abbrev pub acts : List Act → Others
  acts [] s = s
  acts (a ∷ xs) s = acts xs (act a s)

  -- What is left after the rounds of a sleep.
  pub record Stepped (xs : List Act) (r q : Ring LogEntry) (out : Rings) : Type 0 where
    pub heap : Ring LogEntry
    pub shared : Ring LogEntry
    pub world : World
    pub returned : out ≡ record { heap = heap; shared = some shared; world = world }
    pub due : Due mem pid wfc shadow p sinks total heap shared world
    pub heap_size : length (contents heap) ≡ length (contents r) - forward_count xs
    pub both_size :
        length (contents heap) + length (contents shared)
        ≤ length (contents r) + (length (contents q) - write_count xs)

  pipeline_round-ready :
      (t : Turn) (c c' : Cache) (r q q' : Ring LogEntry) (w : World)
      → IsValid r
      → r.tail < r.head
      → process_entry mem pid wfc shadow t (r.buffer (r.tail % r.capacity)) c (some q)
        ≡ some (c', some q')
      → pipeline_round mem pid wfc shadow t c (record { heap = r; shared = some q; world = w })
        ≡ record { heap = popped wfc shadow r; shared = some q'; world = w }
  unfolding pipeline_round
  pipeline_round-ready t c c' r q q' w v l done =
      let taken = try_pop-ready wfc shadow v l in
      rw (pipeline_round, taken, done)
        (ap (λ x. record { heap = x.1; shared = some q'; world = w }) taken)

  pipeline_round-empty :
      (t : Turn) (c : Cache) (r q : Ring LogEntry) (w : World)
      → IsValid r
      → r.head ≡ r.tail
      → pipeline_round mem pid wfc shadow t c (record { heap = r; shared = some q; world = w })
        ≡ record { heap = r; shared = some q; world = w }
  unfolding pipeline_round
  pipeline_round-empty t c r q w v e =
      let taken = try_pop-empty wfc shadow v e in
      rw (pipeline_round, taken) (ap (λ x. record { heap = x.1; shared = some q; world = w }) taken)

  IsPortable-rest :
      (e : LogEntry) (es fs : List LogEntry)
      → fs ≡ e ∷ es
      → ArePortable mem fs
      → IsPortable mem e × ArePortable mem es
  IsPortable-rest e es fs h x = subst (ArePortable mem) h x

  -- An entry that moves from one ring to the other keeps its text and its place.
  moved_sum :
      (t : Turn) (e : LogEntry) (q r : List LogEntry)
      → IsPortable mem e
      → map (message p mem) (q ++ (forward mem pid t e ∷ [])) ++ map (message p mem) r
        ≡ map (message p mem) q ++ map (message p mem) (e ∷ r)
  moved_sum t e q r h =
      ap (λ xs. xs ++ map (message p mem) r)
        (map-append (message p mem) q (forward mem pid t e ∷ []))
      ∙ append_assoc (map (message p mem) q) (message p mem (forward mem pid t e) ∷ [])
          (map (message p mem) r)
      ∙ ap (λ x. map (message p mem) q ++ (x ∷ map (message p mem) r))
          (forward-message mem pid p mem t e h)

  pipeline_round-Stepped :
      (t : Turn) (c : Cache) (r q : Ring LogEntry) (w : World)
      → Due mem pid wfc shadow p sinks total r q w
      → Stepped
          (forwards t c ∷ [])
          r
          q
          (act (forwards t c) (record { heap = r; shared = some q; world = w }))
  pipeline_round-Stepped t c r q w d = elim (Bool-cases (ltb r.tail r.head)) [
    | inl some_left ↦
        let l : r.tail < r.head = ground arith in
        let e = r.buffer (r.tail % r.capacity) in
        let r' = popped wfc shadow r in
        let rel =
          (released-IsValid (wfc_after wfc (r.slots (r.tail % r.capacity)).wfc) d.heap_valid l).1 in
        let less = ap length rel in
        let x = IsPortable-rest e (contents r') (contents r) rel d.portable in
        let f =
          process_entry-room mem pid wfc shadow t e c q d.shared_valid d.small
            (omega (arith, d.room, less, length-contents q)) (omega (arith, d.fits, less)) in
        let a = f.appended in
        let size = ap length a.queue in
        let sum = length-append (contents q) (forward mem pid t e ∷ []) in
        record {
          heap = r';
          shared = f.after;
          world = w;
          returned = pipeline_round-ready t c c r q f.after w d.heap_valid l f.returned;
          due = record {
            heap_valid = popped-IsValid wfc shadow d.heap_valid l;
            shared_valid = a.valid;
            small = rw a.same_capacity d.small;
            portable = x.1;
            room = omega (arith, less, size, sum, d.room, a.same_capacity);
            fits = omega (arith, a.next_head, d.fits, less);
            sum =
                ap
                  (λ es.
                    print_each sinks (map (message p mem) es ++ map (message p mem) (contents r'))
                      w)
                  a.queue
                ∙ ap (λ ms. print_each sinks ms w) (moved_sum t e (contents q) (contents r') x.0)
                ∙ ap
                    (λ es.
                      print_each sinks (map (message p mem) (contents q) ++ map (message p mem) es)
                        w)
                    (sym rel)
                ∙ d.sum;
          };
          heap_size = omega (arith, less);
          both_size = omega (arith, less, size, sum);
        }
    | inr nothing ↦
        let e : r.head ≡ r.tail = ground (arith, (d.heap_valid).order) in
        let none_left = length-contents r in
        record {
          heap = r;
          shared = q;
          world = w;
          returned = pipeline_round-empty t c r q w d.heap_valid e;
          due = d;
          heap_size = omega (arith, none_left, e);
          both_size = omega arith;
        }
  ]

  act-Stepped :
      (a : Act) (r q : Ring LogEntry) (w : World)
      → Due mem pid wfc shadow p sinks total r q w
      → Stepped (a ∷ []) r q (act a (record { heap = r; shared = some q; world = w }))
  act-Stepped (forwards t c) r q w d = pipeline_round-Stepped t c r q w d
  act-Stepped writes r q w d =
      let k = worker_round-Written mem pid wfc shadow p sinks total r q w d.shared_valid in
      record {
        heap = r;
        shared = k.shared;
        world = k.world;
        returned = k.returned;
        due = record {
          heap_valid = d.heap_valid;
          shared_valid = k.valid;
          small = rw k.same_capacity d.small;
          portable = d.portable;
          room = omega (arith, k.size, d.room, k.same_capacity);
          fits = omega (arith, k.same_head, d.fits);
          sum = k.same_sum ∙ d.sum;
        };
        heap_size = omega arith;
        both_size = omega (arith, k.size);
      }

  Stepped-cons :
      (a : Act) (xs : List Act) (r q : Ring LogEntry) (s : Rings) (k : Stepped (a ∷ []) r q s)
      (out : Rings)
      → Stepped xs k.heap k.shared out
      → Stepped (a ∷ xs) r q out
  Stepped-cons (forwards t c) xs r q s k out m = record {
    heap = m.heap;
    shared = m.shared;
    world = m.world;
    returned = m.returned;
    due = m.due;
    heap_size = omega (arith, m.heap_size, k.heap_size);
    both_size = omega (arith, m.both_size, k.heap_size, k.both_size);
  }
  Stepped-cons writes xs r q s k out m = record {
    heap = m.heap;
    shared = m.shared;
    world = m.world;
    returned = m.returned;
    due = m.due;
    heap_size = omega (arith, m.heap_size, k.heap_size);
    both_size = omega (arith, m.both_size, k.heap_size, k.both_size);
  }

  -- Whatever the rounds of a sleep are, in any number and order.
  pub acts-Stepped :
      (xs : List Act) (r q : Ring LogEntry) (w : World)
      → Due mem pid wfc shadow p sinks total r q w
      → Stepped xs r q (acts xs (record { heap = r; shared = some q; world = w }))
  acts-Stepped [] r q w d = record {
    heap = r;
    shared = q;
    world = w;
    returned = refl;
    due = d;
    heap_size = omega arith;
    both_size = omega arith;
  }
  acts-Stepped (a ∷ xs) r q w d =
      let k = act-Stepped a r q w d in
      Stepped-cons a xs r q _ k _ (
        subst (λ s. Stepped xs k.heap k.shared (acts xs s)) (sym k.returned)
          (acts-Stepped xs k.heap k.shared k.world k.due))
