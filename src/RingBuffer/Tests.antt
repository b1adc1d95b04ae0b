-- ===== src/RingBuffer/Tests.antt =====
-- The properties of the ring buffer at concrete rings (include/oneplog/internal/heap_memory.hpp).
use oneplog.Prelude.{
  ℕ, ◌≤◌, ◌<◌, ◌≡◌, refl, true, false, none, [], ◌∷◌, ◌++◌, arith, inl, inr, ◌⊎◌, replicate,
}
use oneplog.RingBuffer.Slot
use oneplog.RingBuffer.Slot.{WfcState}
use oneplog.RingBuffer.State.{
  Ring, fresh_cache, new_ring, QueueFullPolicy, block, drop_newest, drop_oldest,
}
use oneplog.RingBuffer.Push.{try_push}
use oneplog.RingBuffer.Pop.{try_pop}
use oneplog.RingBuffer.Inv.{IsValid, contents, new_ring-IsValid, filled, filled-IsValid}
use oneplog.RingBuffer.PushPolicy.{Pushed, try_push-drop_newest, try_push-drop_oldest}
use oneplog.RingBuffer.Queue.{poll}
use oneplog.RingBuffer.PushWait.{try_push-Waits}
use oneplog.RingBuffer.PopRefines.{try_pop_refines}
use oneplog.RingBuffer.ShadowTail.{try_push-livelock}
use oneplog.RingBuffer.ShadowPush.{cache_after, try_push-large_newest}

abbrev start : QueueFullPolicy → ℕ → Ring ℕ
start pol cap = new_ring 0 true cap pol

-- One entry, 7, in the ring.
abbrev one_left : WfcState → QueueFullPolicy → ℕ → Ring ℕ
one_left w pol cap = filled (start pol cap) 7 w

start-IsValid : (pol : QueueFullPolicy) (cap : ℕ) → 0 < cap → IsValid (start pol cap)
start-IsValid pol cap h = (new_ring-IsValid 0 true cap pol h).0

one_left-IsValid :
    (w : WfcState) (pol : QueueFullPolicy) (cap : ℕ) → 0 < cap → IsValid (one_left w pol cap)
unfolding new_ring
one_left-IsValid w pol cap h = (filled-IsValid 7 w (start-IsValid pol cap h) h (omega arith)).0

try_pop_refines_example :
    let (out, r') = try_pop true true (one_left WfcState.wfc_none block 4) in
    ((out, contents r') ≡ poll (7 ∷ []))
    × IsValid r'
    × (r'.head ≡ 1)
    × (r'.dropped_count ≡ 0)
    × (r'.capacity ≡ 4)
unfolding new_ring
try_pop_refines_example =
    try_pop_refines true true (one_left WfcState.wfc_none block 4)
      (one_left-IsValid WfcState.wfc_none block 4 (omega arith))

-- The ring of capacity 1 is full.
try_push-drop_newest_example :
    Pushed
      (one_left WfcState.wfc_none drop_newest 1)
      fresh_cache
      (false, 7 ∷ [])
      1
      (try_push false true ((λ q. q) ∷ []) 8 fresh_cache (one_left WfcState.wfc_none drop_newest 1))
unfolding new_ring
try_push-drop_newest_example =
    try_push-drop_newest false true (λ q. q) [] 8 fresh_cache
      (one_left WfcState.wfc_none drop_newest 1)
      (one_left-IsValid WfcState.wfc_none drop_newest 1 (omega arith)) refl refl (omega arith)

try_push-drop_oldest_example :
    Pushed
      (one_left WfcState.wfc_none drop_oldest 1)
      fresh_cache
      (true, 8 ∷ [])
      1
      (try_push true true
        ((λ q. q) ∷ (λ q. q) ∷ [])
        8
        fresh_cache
        (one_left WfcState.wfc_none drop_oldest 1))
unfolding new_ring
try_push-drop_oldest_example =
    try_push-drop_oldest true true (λ q. q) [] 8 fresh_cache
      (one_left WfcState.wfc_none drop_oldest 1)
      (one_left-IsValid WfcState.wfc_none drop_oldest 1 (omega arith)) refl refl (omega arith) refl

-- The consumer empties the ring in the meantime.
try_push-Waits_example :
    (try_push false true (replicate 3 (λ q. q)) 8 fresh_cache (one_left WfcState.wfc_none block 1)
      ≡ none)
    × Pushed
        (start block 1)
        fresh_cache
        (true, 8 ∷ [])
        0
        (try_push false true
          (replicate 3 (λ q. q) ++ ((λ q. start block 1) ∷ (λ q. q) ∷ []))
          8
          fresh_cache
          (one_left WfcState.wfc_none block 1))
unfolding new_ring
try_push-Waits_example =
    try_push-Waits false true 3 (λ q. start block 1) (λ q. q) [] 8 fresh_cache
      (one_left WfcState.wfc_none block 1)
      (one_left-IsValid WfcState.wfc_none block 1 (omega arith)) refl (inr (inl refl)) (omega arith)
      (start-IsValid block 1 (omega arith)) refl (omega arith) (omega arith)

-- A ring of capacity 64 that has been filled.
abbrev full_large : Ring ℕ
full_large = record (start drop_oldest 64) {
  head = 64;
  slots = λ _. record { state = Slot.SlotState.ready; wfc = WfcState.wfc_none };
}

try_push-livelock_example :
    try_push false true (replicate 5 (λ q. q)) 8 fresh_cache full_large ≡ none
unfolding new_ring
try_push-livelock_example =
    try_push-livelock false true 5 8 fresh_cache full_large refl refl refl refl (omega arith)
      (omega arith)

try_push-large_newest_example :
    Pushed
      (one_left WfcState.wfc_none drop_newest 64)
      (cache_after fresh_cache (one_left WfcState.wfc_none drop_newest 64))
      (true, 7 ∷ 8 ∷ [])
      0
      (try_push true true
        ((λ q. q) ∷ (λ q. q) ∷ [])
        8
        fresh_cache
        (one_left WfcState.wfc_none drop_newest 64))
    × ((true ≡ true) ⊎ (64 ≤ 32))
unfolding new_ring
try_push-large_newest_example =
    try_push-large_newest true true (λ q. q) [] 8 fresh_cache
      (one_left WfcState.wfc_none drop_newest 64)
      (one_left-IsValid WfcState.wfc_none drop_newest 64 (omega arith)) refl refl refl refl
      (omega arith) (omega arith)
