-- ===== src/RingBuffer/PushWait.antt =====
-- `AcquireSlotSmallQueue` where it waits: a full queue under Block, an entry pushed with WFC, and an
-- oldest entry that awaits its completion.
use oneplog.Prelude.{
  ℕ, suc, zero, ◌+◌, ◌-◌, ◌%◌, ◌≤◌, ◌<◌, ◌≡◌, refl, ◌∙◌, Bool, true, false, ◌&&◌, none, some, [],
  ◌∷◌, ◌++◌, arith, replicate, append-nil, pos, ◌⊎◌, inl, inr,
}
use oneplog.RingBuffer.Slot
use oneplog.RingBuffer.State.{Ring, Cache, block, drop_oldest, size_mod, spin_wait}
use oneplog.RingBuffer.Acquire.{
  Schedule, small_round, small_loop, SmallRound, acquire_slot, acquire_slot_small_queue,
}
use oneplog.RingBuffer.Push.{try_push}
use oneplog.RingBuffer.Inv.{IsValid, contents}
use oneplog.RingBuffer.Claim.{claim, small_loop-room}
use oneplog.RingBuffer.PushSmall.{IsSmall}
use oneplog.RingBuffer.PushPolicy.{Pushed, Pushed-room}

abbrev spins_after : ℕ → ℕ → ℕ
spins_after zero spins = spins
spins_after (suc n) spins = spins_after n (spin_wait spins)

module _ {A : Type 0} where
  -- Why a push at a full queue waits: its own WFC flag, the policy, or the oldest entry's flag.
  abbrev pub Waits : Bool → Bool → Ring A → Type 0
  Waits wfc is_wfc r =
      ((wfc && is_wfc) ≡ true)
      ⊎ (r.policy ≡ block)
      ⊎ ((r.policy ≡ drop_oldest)
          × ((wfc && Slot.is_wfc_enabled (r.slots (r.tail % r.capacity))) ≡ true))

  small_round-full-Waits :
      (wfc is_wfc : Bool) (spins : ℕ) {r : Ring A}
      → IsValid r
      → Waits wfc is_wfc r
      → r.capacity ≤ r.head - r.tail
      → small_round wfc is_wfc r.head spins r ≡ SmallRound.spin (spin_wait spins) r
  unfolding small_round
  small_round-full-Waits wfc is_wfc spins {r} v (inl w) h = ground arith
  small_round-full-Waits wfc is_wfc spins {r} v (inr (inl w)) h = ground arith
  small_round-full-Waits wfc is_wfc spins {r} v (inr (inr w)) h = ground arith

  -- While the queue is full and nobody acts, each round only spins.
  small_loop-quiet :
      (wfc is_wfc : Bool) (n spins : ℕ) (sched : Schedule A) {r : Ring A}
      → IsValid r
      → Waits wfc is_wfc r
      → r.capacity ≤ r.head - r.tail
      → small_loop wfc is_wfc (replicate n (λ q. q) ++ sched) r.head spins r
        ≡ small_loop wfc is_wfc sched r.head (spins_after n spins) r
  unfolding small_loop
  small_loop-quiet wfc is_wfc zero spins sched v w h = refl
  small_loop-quiet wfc is_wfc (suc n) spins sched {r} v w h = ground (
    arith,
    small_round-full-Waits wfc is_wfc spins v w h,
    small_loop-quiet wfc is_wfc n (spin_wait spins) sched v w h,
  )

  -- Then another thread acts, and there is room: the loop claims the slot of that state.
  small_loop-woken :
      (wfc is_wfc : Bool) (n spins : ℕ) (o o2 : Ring A → Ring A) (sched : Schedule A) {r : Ring A}
      → IsValid r
      → Waits wfc is_wfc r
      → r.capacity ≤ r.head - r.tail
      → IsValid (o r)
      → (o r).head - (o r).tail < (o r).capacity
      → small_loop wfc is_wfc (replicate n (λ q. q) ++ (o ∷ o2 ∷ sched)) r.head spins r
        ≡ some (pos ((o r).head % (o r).capacity), claim (o r))
  unfolding small_loop
  small_loop-woken wfc is_wfc n spins o o2 sched {r} v w h v' h' =
      small_loop-quiet wfc is_wfc n spins (o ∷ o2 ∷ sched) v w h
      ∙ ground (
        arith,
        small_round-full-Waits wfc is_wfc (spins_after n spins) v w h,
        small_loop-room wfc is_wfc o2 sched (spin_wait (spins_after n spins)) v' h',
      )

  try_push-woken_eq :
      (wfc shadow : Bool) (n : ℕ) (o o2 : Ring A → Ring A) (sched : Schedule A) (x : A) (c : Cache)
      {r : Ring A}
      → IsValid r
      → IsSmall shadow r
      → Waits wfc false r
      → r.capacity ≤ r.head - r.tail
      → IsValid (o r)
      → (o r).capacity ≡ r.capacity
      → (o r).head - (o r).tail < (o r).capacity
      → try_push wfc shadow (replicate n (λ q. q) ++ (o ∷ o2 ∷ sched)) x c r
        ≡ try_push wfc shadow (o2 ∷ sched) x c (o r)
  unfolding try_push acquire_slot acquire_slot_small_queue
  try_push-woken_eq wfc shadow n o o2 sched x c {r} v s w h v' e h' = ground (
    arith,
    v.live,
    v'.live,
    small_loop-woken wfc false n 0 o o2 sched v w h v' h',
    small_loop-room wfc false o2 sched 0 v' h',
  )

  -- At a full valid ring that takes the small queue's path (no shadow tail, or at most 32 places) a
  -- push that waits (under Block, or because the oldest entry awaits its completion) neither drops an
  -- entry nor fails: while no other thread acts it runs on, for any number of rounds, and once another
  -- thread leaves a valid ring of the same capacity with room, and the head does not wrap around, it
  -- returns true with its entry behind what that thread left.
  pub try_push-Waits :
      (wfc shadow : Bool) (n : ℕ) (o o2 : Ring A → Ring A) (sched : Schedule A) (x : A) (c : Cache)
      (r : Ring A)
      → IsValid r
      → IsSmall shadow r
      → Waits wfc false r
      → r.capacity ≤ r.head - r.tail
      → IsValid (o r)
      → (o r).capacity ≡ r.capacity
      → (o r).head - (o r).tail < (o r).capacity
      → (o r).head + 1 < size_mod
      → (try_push wfc shadow (replicate n (λ q. q)) x c r ≡ none)
        × Pushed
            (o r)
            c
            (true, contents (o r) ++ (x ∷ []))
            (o r).dropped_count
            (try_push wfc shadow (replicate n (λ q. q) ++ (o ∷ o2 ∷ sched)) x c r)
  unfolding try_push acquire_slot acquire_slot_small_queue small_loop
  try_push-Waits wfc shadow n o o2 sched x c r v s w h v' e h' l = (
    ground (
      arith,
      v.live,
      append-nil {A = Ring A → Ring A} (replicate n (λ q. q)),
      small_loop-quiet wfc false n 0 [] v w h,
    ),
    rw (try_push-woken_eq wfc shadow n o o2 sched x c v s w h v' e h')
        (Pushed-room wfc shadow o2 sched x c v' (rw e s) h' l),
  )
