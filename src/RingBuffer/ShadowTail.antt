-- ===== src/RingBuffer/ShadowTail.antt =====
-- `AcquireSlotWithShadowTail`: capacities above 32 with the shadow tail, where a producer judges
-- the room by a tail that the consumer publishes every 32 entries.
use oneplog.Prelude.{
  ℕ, suc, zero, ◌%◌, ◌≤◌, ◌≡◌, refl, ◌∙◌, Bool, true, false, ◌&&◌, none, some, arith, if◌then◌else◌,
  ltb, negsuc, replicate,
}
use oneplog.RingBuffer.Slot
use oneplog.RingBuffer.Slot.{SlotState, WfcState}
use oneplog.RingBuffer.State.{
  Ring, Cache, drop_oldest, sub_size, count_drop, spin_wait, shadow_tail_update_interval,
}
use oneplog.RingBuffer.Acquire.{
  Schedule, ShadowRound, shadow_round, shadow_loop, acquire_slot, acquire_slot_with_shadow_tail,
  drop_oldest_entry,
}
use oneplog.RingBuffer.Push.{try_push, try_push_wfc}

module _ {A : Type 0} where
  abbrev pub IsLarge : Bool → Ring A → Type 0
  IsLarge shadow r = (shadow && ltb shadow_tail_update_interval r.capacity) ≡ true

  -- `DropOldestEntry` moves neither `head` nor the shadow tail.
  record Frame (r r' : Ring A) : Type 0 where
    head : r'.head ≡ r.head
    shadow_tail : r'.shadow_tail ≡ r.shadow_tail
    capacity : r'.capacity ≡ r.capacity
    policy : r'.policy ≡ r.policy

  drop_oldest_entry-Frame : (wfc : Bool) (r : Ring A) → Frame r (drop_oldest_entry wfc r).1
  unfolding drop_oldest_entry
  drop_oldest_entry-Frame wfc r = record {
    head = ground arith;
    shadow_tail = ground arith;
    capacity = ground arith;
    policy = ground arith;
  }

  -- A round that cannot claim a slot under DropOldest, and keeps what made that so.
  data Stuck (r : Ring A) : ShadowRound A → Type 0 where
    again :
        (spins : ℕ) (c : Cache) (r' : Ring A)
        → Frame r r'
        → r.capacity ≤ sub_size r.head c.cached_shadow_tail
        → Stuck r (ShadowRound.retry r.head spins c r')
    spun :
        (spins : ℕ) (c : Cache) (r' : Ring A)
        → Frame r r'
        → r.capacity ≤ sub_size r.head c.cached_shadow_tail
        → Stuck r (ShadowRound.spin false spins c r')

  Frame-refl : (r : Ring A) → Frame r r
  Frame-refl r = record { head = refl; shadow_tail = refl; capacity = refl; policy = refl }

  abbrev oldest_round : Bool → ℕ → Cache → Ring A → Bool → Bool → ShadowRound A
  oldest_round wfc spins c r awaited dropped =
      let r' = (drop_oldest_entry wfc r).1 in
      if awaited
      then ShadowRound.spin false (spin_wait spins) c r
      else if dropped
      then ShadowRound.retry r.head spins (record c { cached_shadow_tail = r'.shadow_tail }) r'
      else ShadowRound.spin false (spin_wait spins) c r'

  oldest_round-Stuck :
      (wfc : Bool) (spins : ℕ) (c : Cache) (r : Ring A) (awaited dropped : Bool)
      → r.capacity ≤ sub_size r.head r.shadow_tail
      → r.capacity ≤ sub_size r.head c.cached_shadow_tail
      → Stuck r (oldest_round wfc spins c r awaited dropped)
  oldest_round-Stuck wfc spins c r true dropped h k = spun (spin_wait spins) c r (Frame-refl r) k
  oldest_round-Stuck wfc spins c r false true h k =
      let f = drop_oldest_entry-Frame wfc r in
      again spins (record c { cached_shadow_tail = (drop_oldest_entry wfc r).1.shadow_tail })
        (drop_oldest_entry wfc r).1 f (omega (arith, f.shadow_tail))
  oldest_round-Stuck wfc spins c r false false h k =
      spun (spin_wait spins) c (drop_oldest_entry wfc r).1 (drop_oldest_entry-Frame wfc r) k

  shadow_round-full_oldest :
      (wfc : Bool) (spins : ℕ) (c : Cache) (r : Ring A)
      → r.policy ≡ drop_oldest
      → r.capacity ≤ sub_size r.head r.shadow_tail
      → r.capacity ≤ sub_size r.head c.cached_shadow_tail
      → shadow_round wfc false r.head spins c r
        ≡ oldest_round wfc spins c r
            (wfc && Slot.is_wfc_enabled (r.slots (r.tail % r.capacity)))
            (drop_oldest_entry wfc r).0
  unfolding shadow_round
  shadow_round-full_oldest wfc spins c r p h k = ground arith

  -- No number of undisturbed rounds leaves the loop.
  shadow_loop-stuck :
      (wfc : Bool) (n spins : ℕ) (c : Cache) (r : Ring A)
      → r.policy ≡ drop_oldest
      → r.capacity ≤ sub_size r.head r.shadow_tail
      → r.capacity ≤ sub_size r.head c.cached_shadow_tail
      → shadow_loop wfc false (replicate n (λ q. q)) r.head spins c r ≡ none
  unfolding shadow_loop
  shadow_loop-stuck wfc zero spins c r p h k = refl
  shadow_loop-stuck wfc (suc n) spins c r p h k =
      go (shadow_loop-stuck wfc n) (shadow_round wfc false r.head spins c r)
        (rw (shadow_round-full_oldest wfc spins c r p h k)
          (oldest_round-Stuck wfc spins c r _ _ h k))
        refl
    where
      go :
          ((s : ℕ) (c' : Cache) (r' : Ring A)
            → r'.policy ≡ drop_oldest
            → r'.capacity ≤ sub_size r'.head r'.shadow_tail
            → r'.capacity ≤ sub_size r'.head c'.cached_shadow_tail
            → shadow_loop wfc false (replicate n (λ q. q)) r'.head s c' r' ≡ none)
          → (out : ShadowRound A) → Stuck r out
          → shadow_round wfc false r.head spins c r ≡ out
          → shadow_loop wfc false (replicate (suc n) (λ q. q)) r.head spins c r ≡ none
      go ih out (again s c' r' f l) e =
          rw (e, shadow_loop)
            (rw (← f.head) (ih s c' r' (f.policy ∙ p) (omega arith) (omega arith)))
      go ih out (spun s c' r' f l) e =
          rw (e, shadow_loop) (ih s c' r' (f.policy ∙ p) (omega arith) (omega arith))

  -- On a live ring with the shadow tail in use, under DropOldest, a `TryPush` that finds no room by
  -- the shadow tail never returns while no other thread acts, however many rounds it makes.
  pub try_push-livelock :
      (wfc shadow : Bool) (n : ℕ) (x : A) (c : Cache) (r : Ring A)
      → r.live ≡ true
      → IsLarge shadow r
      → r.policy ≡ drop_oldest
      → c.skip_count ≡ 0
      → r.capacity ≤ sub_size r.head r.shadow_tail
      → r.capacity ≤ sub_size r.head c.cached_shadow_tail
      → try_push wfc shadow (replicate n (λ q. q)) x c r ≡ none
  unfolding try_push acquire_slot acquire_slot_with_shadow_tail
  try_push-livelock wfc shadow n x c r v big p z h k =
      ground (arith, shadow_loop-stuck wfc n 0 c r p h k)

  -- While a producer's skip count is positive, each push to a live large ring is dropped, whatever
  -- the ring holds: `TryPush` returns false and `TryPushWFC` the invalid slot, the contents stay,
  -- and a drop is counted.
  pub push-skips :
      (wfc shadow : Bool) (sched : Schedule A) (x : A) (c : Cache) (k : ℕ) (r : Ring A)
      → r.live ≡ true
      → IsLarge shadow r
      → c.skip_count ≡ suc k
      → (try_push wfc shadow sched x c r ≡ some (false, record c { skip_count = k }, count_drop r))
        × (try_push_wfc shadow sched x c r
            ≡ some (negsuc 0, record c { skip_count = k }, count_drop r))
  unfolding try_push try_push_wfc acquire_slot acquire_slot_with_shadow_tail
  push-skips wfc shadow sched x c k r v big z = (ground arith, ground arith)
