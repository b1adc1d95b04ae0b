-- ===== src/Mproc/DueRound.antt =====
-- A round of the pipeline and one of the worker, and what is due to be printed
-- (include/oneplog/logger.hpp).
use oneplog.Prelude.{
  ℕ, ◌+◌, ◌-◌, ◌%◌, ◌<◌, ◌≤◌, ◌≡◌, refl, ◌∙◌, sym, ap, Bool, none, some, List, ◌++◌, map, ltb,
  length, Bool-cases, inl, inr, arith,
}
use oneplog.RingBuffer.State.{Ring, Cache, size_mod}
use oneplog.RingBuffer.Inv.{IsValid, contents, length-contents, released-IsValid}
use oneplog.RingBuffer.Pop.{try_pop}
use oneplog.RingBuffer.PushSmall.{IsSmall}
use oneplog.RingBuffer.PopRefines.{popped, popped-IsValid, wfc_after}
use oneplog.Snapshot.Format.{Printer}
use oneplog.Logger.Entry.{LogEntry}
use oneplog.Logger.Sinks.{World, SinkType, SinkBinding, write_all_async}
use oneplog.Logger.Worker.{pop_and_process}
use oneplog.Logger.Drain.{pop_and_process-ready, pop_and_process-empty}
use oneplog.Pipeline.Forward.{Turn, process_entry}
use oneplog.Pipeline.Message.{message, ArePortable}
use oneplog.Mproc.Worker.{Rings}
use oneplog.Mproc.Messages.{message_bindings, print_each, write_all_async-message}
use oneplog.Mproc.Flush.{Others}

module _ (mem : ℕ → ℕ) (pid : ℕ) (wfc shadow : Bool) where
  -- One entry forwarded, if there is one.
  unfoldable pub pipeline_round : Turn → Cache → Others
  pipeline_round t c s =
      let (out, heap') = try_pop wfc shadow s.heap in
      elim out [
        | none ↦ record s { heap = heap' }
        | some e ↦ elim (process_entry mem pid wfc shadow t e c s.shared) [
          | none ↦ s
          | some (c', shared') ↦ record s { heap = heap'; shared = shared' }
        ]
      ]

module _ (bindings : List SinkBinding) (wfc shadow : Bool) where
  -- One entry of the shared ring written, if there is one.
  unfoldable pub worker_round : Others
  worker_round s = elim s.shared [
    | none ↦ s
    | some q ↦
        let (had, q', w') = pop_and_process bindings wfc shadow q s.world in
        record s { shared = some q'; world = w' }
  ]

module _ (mem : ℕ → ℕ) (pid : ℕ) (wfc shadow : Bool) (p : Printer) (sinks : List SinkType)
    (total : World) where
  -- What has been printed, and after it what the shared ring and then the other hold, comes to
  -- `total`; there is room for all of it in the shared ring.
  pub record Due (r q : Ring LogEntry) (w : World) : Type 0 where
    pub heap_valid : IsValid r
    pub shared_valid : IsValid q
    pub small : IsSmall shadow q
    pub portable : ArePortable mem (contents r)
    pub room : length (contents q) + length (contents r) ≤ q.capacity
    pub fits : q.head + length (contents r) < size_mod
    pub sum :
        print_each sinks (map (message p mem) (contents q) ++ map (message p mem) (contents r)) w
        ≡ total

  -- After a round of the worker.
  pub record Written (r q : Ring LogEntry) (w : World) (out : Rings) : Type 0 where
    pub shared : Ring LogEntry
    pub world : World
    pub returned : out ≡ record { heap = r; shared = some shared; world = world }
    pub valid : IsValid shared
    pub size : length (contents shared) ≡ length (contents q) - 1
    pub same_head : shared.head ≡ q.head
    pub same_capacity : shared.capacity ≡ q.capacity
    pub same_sum :
        print_each sinks
          (map (message p mem) (contents shared) ++ map (message p mem) (contents r))
          world
        ≡ print_each sinks (map (message p mem) (contents q) ++ map (message p mem) (contents r)) w

  pub worker_round-Written :
      (r q : Ring LogEntry) (w : World)
      → IsValid q
      → Written r q w (
          worker_round
            (message_bindings p mem sinks)
            wfc
            shadow
            (record { heap = r; shared = some q; world = w }))
  unfolding worker_round
  worker_round-Written r q w v = elim (Bool-cases (ltb q.tail q.head)) [
    | inl some_left ↦
        let l : q.tail < q.head = ground arith in
        let e = q.buffer (q.tail % q.capacity) in
        let q' = popped wfc shadow q in
        let w' = write_all_async (message_bindings p mem sinks) e w in
        let rel = (released-IsValid (wfc_after wfc (q.slots (q.tail % q.capacity)).wfc) v l).1 in
        record {
          shared = q';
          world = w';
          returned =
              ap (λ x. record { heap = r; shared = some x.1; world = x.2 })
                (pop_and_process-ready (message_bindings p mem sinks) shadow wfc q w v l);
          valid = popped-IsValid wfc shadow v l;
          size = omega (arith, ap length rel);
          same_head = refl;
          same_capacity = refl;
          same_sum =
              ap
                (print_each sinks
                  (map (message p mem) (contents q') ++ map (message p mem) (contents r)))
                (write_all_async-message p mem sinks e w)
              ∙ ap
                  (λ es.
                    print_each sinks (map (message p mem) es ++ map (message p mem) (contents r)) w)
                  (sym rel);
        }
    | inr nothing ↦
        let e : q.head ≡ q.tail = ground (arith, v.order) in
        record {
          shared = q;
          world = w;
          returned =
              ap (λ x. record { heap = r; shared = some x.1; world = x.2 })
                (pop_and_process-empty (message_bindings p mem sinks) shadow wfc q w v e);
          valid = v;
          size = omega (arith, length-contents q, e);
          same_head = refl;
          same_capacity = refl;
          same_sum = refl;
        }
  ]
