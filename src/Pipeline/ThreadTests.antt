-- ===== src/Pipeline/ThreadTests.antt =====
-- The thread of the pipeline with a producer and a consumer at work
-- (include/oneplog/internal/pipeline_thread.hpp).
use oneplog.Prelude.{
  append-nil, ◌+◌, ◌-◌, ◌%◌, ◌<◌, refl, sym, Bool, true, ◌&&◌, if◌then◌else◌, some, List, [], ◌∷◌,
  ltb, arith, Bool-cases, inl, inr,
}
use oneplog.RingBuffer.Slot.{WfcState}
use oneplog.RingBuffer.State.{Ring, new_ring, fresh_cache, size_mod}
use oneplog.RingBuffer.Inv.{IsValid, contents, filled, filled-IsValid, released-IsValid}
use oneplog.RingBuffer.PopRefines.{popped, popped-IsValid, wfc_after}
use oneplog.RingBuffer.Wait.{EventFd}
use oneplog.Logger.Entry.{LogEntry}
use oneplog.Pipeline.Thread.{Round, ThreadTurn, thread_func}
use oneplog.Pipeline.Trace.{Action, Grown, OnlyGrows, LeavesRoom}
use oneplog.Pipeline.ThreadHolds.{Drains, thread_func-Drains}
use oneplog.Pipeline.Tests.{
  blank, memory, entry, no_entry, no_entry-IsValid, one_entry, one_entry-IsValid, turns,
}

abbrev has_room : Ring LogEntry → Bool
has_room r = ltb (r.head - r.tail) r.capacity && ltb (r.head + 1) size_mod

abbrev add_one : Ring LogEntry → Ring LogEntry
add_one r = if has_room r then filled r entry WfcState.wfc_none else r

same_ring-Grown : (r : Ring LogEntry) → IsValid r → Grown r r
same_ring-Grown r v = record { added = []; valid = v; queue = sym (append-nil (contents r)) }

add_one-Grown : OnlyGrows add_one
add_one-Grown r v = elim (Bool-cases (has_room r)) [
  | inl room ↦
      let f =
        filled-IsValid entry WfcState.wfc_none v (ground (arith, room)) (ground (arith, room)) in
      rw room (record { added = entry ∷ []; valid = f.0; queue = f.1 })
  | inr none_left ↦ rw none_left (same_ring-Grown r v)
]

abbrev take_one : Ring LogEntry → Ring LogEntry
take_one q = if ltb q.tail q.head then popped true true q else q

take_one-Shrunk : LeavesRoom take_one
take_one-Shrunk q v = elim (Bool-cases (ltb q.tail q.head)) [
  | inl some_left ↦
      let h : q.tail < q.head = ground arith in
      let w = wfc_after true (q.slots (q.tail % q.capacity)).wfc in
      rw some_left (record {
        removed = q.buffer (q.tail % q.capacity) ∷ [];
        valid = popped-IsValid true true v h;
        queue = sym (released-IsValid w v h).1;
        room = omega (arith, h, v.room, v.order, v.cap_pos, v.fits);
        same_head = refl;
        same_capacity = refl;
      })
  | inr nothing ↦ rw nothing (record {
    removed = [];
    valid = v;
    queue = refl;
    room = ground (arith, v.cap_pos, v.order);
    same_head = refl;
    same_capacity = refl;
  })
]

abbrev round : Round
round = record {
  producers = add_one;
  consumers = take_one;
  turn = record { junk = blank; others = λ q. q; sched = [] };
}

-- Two entries come, and one more while the thread sleeps.
abbrev thread_turns : List ThreadTurn
thread_turns =
    record {
      rounds = round ∷ round ∷ [];
      still = true;
      polls = [];
      missed = add_one;
      before = add_one;
      during = λ r. r;
    }
    ∷ []

abbrev event_fd : EventFd
event_fd = record { poll_in = λ n. true; read_one = λ n. 0 }

-- What the producers and the users of the shared ring do.
data Producer : Action → Type 0 where
  adds : Producer add_one
  rests : Producer (λ r. r)

data Consumer : Action → Type 0 where
  takes : Consumer take_one

producers_grow : (o : Action) → Producer o → OnlyGrows o
producers_grow _ adds = add_one-Grown
producers_grow _ rests = same_ring-Grown

consumers_shrink : (o : Action) → Consumer o → LeavesRoom o
consumers_shrink _ takes = take_one-Shrunk

thread_func-Drains_example :
    Drains memory 42 one_entry no_entry true true Producer Consumer fresh_cache turns (
      thread_func memory 42 true true event_fd thread_turns turns fresh_cache one_entry
        (some no_entry))
unfolding new_ring
thread_func-Drains_example =
    thread_func-Drains memory 42 one_entry no_entry true true Producer Consumer refl producers_grow
      consumers_shrink event_fd thread_turns turns fresh_cache
      (((adds, takes, (adds, takes, tt)), tt, adds, adds, rests), tt) one_entry-IsValid.0
      no_entry-IsValid (omega arith)
