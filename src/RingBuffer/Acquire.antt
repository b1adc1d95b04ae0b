-- ===== src/RingBuffer/Acquire.antt =====
-- `AcquireSlot` and its two loops, and `DropOldestEntry` (heap_memory.hpp).
-- A loop runs along a schedule: each element says what the other threads do to the shared state
-- before the next round, and `none` means that the schedule ended while the loop still ran. Inside
-- a round no other thread acts, and a weak compare-exchange does not fail spuriously.
use oneplog.Prelude.{
  ℕ, ◌-◌, ◌%◌, Bool, true, false, not, ◌&&◌, ◌==◌, if◌then◌else◌, ltb, leb, Option, none, some,
  List, [], ◌∷◌, ℤ, pos, negsuc,
}
use oneplog.RingBuffer.Slot
use oneplog.RingBuffer.State.{
  Ring, Cache, QueueFullPolicy, block, drop_newest, drop_oldest, add_size, sub_size, set_slot,
  count_drop, spin_wait, shadow_tail_update_interval, skip_count_on_persistent_full,
}

-- `kInvalidSlot`
abbrev pub invalid_slot : ℤ
invalid_slot = negsuc 0

abbrev pub Schedule : Type 0 → Type 0
Schedule A = List (Ring A → Ring A)

module _ {A : Type 0} where
  -- Given the template flag EnableWFC.
  unfoldable pub drop_oldest_entry : Bool → Ring A → Bool × Ring A
  drop_oldest_entry wfc r =
      if not r.live
      then (false, r)
      else if leb r.head r.tail
      then (false, r)
      else let i = r.tail % r.capacity in
        if wfc && Slot.is_wfc_enabled (r.slots i)
        then (false, r)
        else let (started, s) = Slot.try_start_read (r.slots i) in
          if started
          then (
            true,
            record (count_drop (set_slot r i (Slot.complete_read s))) { tail = add_size r.tail 1 },
          )
          else (false, r)

  -- The inner loop: `while (!TryAcquire()) SpinWait`.
  unfoldable pub wait_slot : ℕ → Schedule A → Ring A → Option (Ring A)
  wait_slot i [] r =
      let (got, s) = Slot.try_acquire (r.slots i) in if got then some (set_slot r i s) else none
  wait_slot i (others ∷ sched) r =
      let (got, s) = Slot.try_acquire (r.slots i) in
      let rest = wait_slot i sched (others r) in if got then some (set_slot r i s) else rest

-- What one round of `AcquireSlotSmallQueue` comes to.
pub data SmallRound (A : Type 0) : Type 0 where
  claimed : ℕ → Ring A → SmallRound A  -- the compare-exchange on `head` took this slot
  invalid : Ring A → SmallRound A  -- return kInvalidSlot
  retry : ℕ → ℕ → Ring A → SmallRound A  -- continue with this `head` and spin count
  spin : ℕ → Ring A → SmallRound A  -- SpinWait, reload `head`, continue

module _ {A : Type 0} (wfc is_wfc : Bool) where
  -- The policies at a full queue.
  abbrev small_full : QueueFullPolicy → ℕ → ℕ → Ring A → SmallRound A
  small_full drop_newest head spins r = SmallRound.invalid (count_drop r)
  small_full drop_oldest head spins r =
      if wfc && Slot.is_wfc_enabled (r.slots (r.tail % r.capacity))
      then SmallRound.spin (spin_wait spins) r
      else let (dropped, r') = drop_oldest_entry wfc r in
        if dropped then SmallRound.retry head spins r' else SmallRound.spin (spin_wait spins) r'
  small_full block head spins r = SmallRound.spin (spin_wait spins) r

  unfoldable pub small_round : ℕ → ℕ → Ring A → SmallRound A
  small_round head spins r =
      if leb r.capacity (sub_size head r.tail)
      then if wfc && is_wfc
        then SmallRound.spin (spin_wait spins) r
        else small_full r.policy head spins r
      else if r.head == head
      then SmallRound.claimed (head % r.capacity) (record r { head = add_size head 1 })
      else SmallRound.retry r.head spins r

  -- The `while (true)` of `AcquireSlotSmallQueue`.
  unfoldable pub small_loop : Schedule A → ℕ → ℕ → Ring A → Option (ℤ × Ring A)
  small_loop [] head spins r = none
  small_loop (others ∷ sched) head spins r = elim (small_round head spins r) [
    | SmallRound.claimed i r' ↦ elim (wait_slot i sched r') [
      | none ↦ none
      | some r'' ↦ some (pos i, r'')
    ]
    | SmallRound.invalid r' ↦ some (invalid_slot, r')
    | SmallRound.retry head' spins' r' ↦ small_loop sched head' spins' (others r')
    | SmallRound.spin spins' r' ↦ small_loop sched (others r').head spins' (others r')
  ]

  unfoldable pub acquire_slot_small_queue : Schedule A → Ring A → Option (ℤ × Ring A)
  acquire_slot_small_queue sched r = small_loop sched r.head 0 r

-- What one round of `AcquireSlotWithShadowTail` comes to; the cache is the calling thread's.
pub data ShadowRound (A : Type 0) : Type 0 where
  claimed : ℕ → Cache → Ring A → ShadowRound A
  invalid : Cache → Ring A → ShadowRound A
  retry : ℕ → ℕ → Cache → Ring A → ShadowRound A
  -- SpinWait, reload `head`; where the flag is set, reload the cached shadow tail if the spin count
  -- is a multiple of 100
  spin : Bool → ℕ → Cache → Ring A → ShadowRound A

module _ {A : Type 0} (wfc is_wfc : Bool) where
  abbrev shadow_full : QueueFullPolicy → ℕ → ℕ → Cache → Ring A → ShadowRound A
  shadow_full drop_newest head spins c r =
      ShadowRound.invalid
        (record {
          cached_shadow_tail = r.shadow_tail;
          skip_count =
              if r.shadow_tail == c.cached_shadow_tail
              then skip_count_on_persistent_full
              else c.skip_count;
        })
        (count_drop r)
  shadow_full drop_oldest head spins c r =
      if wfc && Slot.is_wfc_enabled (r.slots (r.tail % r.capacity))
      then ShadowRound.spin false (spin_wait spins) c r
      else let (dropped, r') = drop_oldest_entry wfc r in
        if dropped
        then ShadowRound.retry head spins (record c { cached_shadow_tail = r'.shadow_tail }) r'
        else ShadowRound.spin false (spin_wait spins) c r'
  shadow_full block head spins c r = ShadowRound.spin true (spin_wait spins) c r

  unfoldable pub shadow_round : ℕ → ℕ → Cache → Ring A → ShadowRound A
  shadow_round head spins c r =
      if ltb (sub_size head c.cached_shadow_tail) r.capacity
      then if r.head == head
        then ShadowRound.claimed (head % r.capacity) c (record r { head = add_size head 1 })
        else ShadowRound.retry r.head spins c r
      else if ltb (sub_size head r.shadow_tail) r.capacity
      then ShadowRound.retry head spins (record c { cached_shadow_tail = r.shadow_tail }) r
      else if wfc && is_wfc
      then ShadowRound.spin true (spin_wait spins) c r
      else shadow_full r.policy head spins c r

  -- The reload of the cached shadow tail after a spin.
  abbrev refresh : Bool → ℕ → Cache → Ring A → Cache
  refresh flag spins c r =
      if flag && (spins % 100) == 0 then record c { cached_shadow_tail = r.shadow_tail } else c

  -- The `while (true)` of `AcquireSlotWithShadowTail`.
  unfoldable pub shadow_loop : Schedule A → ℕ → ℕ → Cache → Ring A → Option (ℤ × Cache × Ring A)
  shadow_loop [] head spins c r = none
  shadow_loop (others ∷ sched) head spins c r = elim (shadow_round head spins c r) [
    | ShadowRound.claimed i c' r' ↦ elim (wait_slot i sched r') [
      | none ↦ none
      | some r'' ↦ some (pos i, c', r'')
    ]
    | ShadowRound.invalid c' r' ↦ some (invalid_slot, c', r')
    | ShadowRound.retry head' spins' c' r' ↦ shadow_loop sched head' spins' c' (others r')
    | ShadowRound.spin flag spins' c' r' ↦
        shadow_loop sched (others r').head spins' (refresh flag spins' c' (others r')) (others r')
  ]

  unfoldable pub acquire_slot_with_shadow_tail :
      Schedule A → Cache → Ring A → Option (ℤ × Cache × Ring A)
  acquire_slot_with_shadow_tail sched c r =
      if ltb 0 c.skip_count
      then some (invalid_slot, record c { skip_count = c.skip_count - 1 }, count_drop r)
      else shadow_loop sched r.head 0 c r

-- `AcquireSlot`, given the template flags EnableWFC and EnableShadowTail.
unfoldable pub acquire_slot :
    {A : Type 0} → Bool → Bool → Bool → Schedule A → Cache → Ring A → Option (ℤ × Cache × Ring A)
acquire_slot wfc shadow is_wfc sched c r =
    if not r.live
    then some (invalid_slot, c, r)
    else if shadow && ltb shadow_tail_update_interval r.capacity
    then acquire_slot_with_shadow_tail wfc is_wfc sched c r
    else elim (acquire_slot_small_queue wfc is_wfc sched r) [
      | none ↦ none
      | some (slot, r') ↦ some (slot, c, r')
    ]
