-- ===== src/RingBuffer/ShadowPush.antt =====
-- `TryPush` through `AcquireSlotWithShadowTail` under DropNewest, and the shadow tail's lag.
use oneplog.Prelude.{
  ℕ, ◌+◌, ◌-◌, ◌%◌, ◌≤◌, ◌<◌, ◌≡◌, refl, ◌∙◌, ap, Bool, true, false, ◌&&◌, some, [], ◌∷◌, ◌++◌,
  arith, ◌⊎◌, inl, inr, Bool-cases, if◌then◌else◌, not, length, ltb, ◌==◌, pos, negsuc,
}
use oneplog.RingBuffer.State.{
  Ring, Cache, drop_newest, size_mod, add_size, count_drop, notify_consumer_if_waiting,
  skip_count_on_persistent_full,
}
use oneplog.RingBuffer.Acquire.{
  Schedule, shadow_round, shadow_loop, acquire_slot, acquire_slot_with_shadow_tail, wait_slot,
}
use oneplog.RingBuffer.Push.{try_push}
use oneplog.RingBuffer.Pop.{try_pop}
use oneplog.RingBuffer.Inv.{
  IsValid, contents, length-contents, filled, filled-IsValid, reframe-IsValid,
}
use oneplog.RingBuffer.Claim.{claim, wait_slot-empty}
use oneplog.RingBuffer.PushSmall.{notify-IsValid, notify-eq, commit-claim}
use oneplog.RingBuffer.PushPolicy.{Pushed}
use oneplog.RingBuffer.PopRefines.{try_pop-ready, try_pop-empty}
use oneplog.RingBuffer.ShadowTail.{IsLarge}

module _ {A : Type 0} where
  -- The shadow tail is the tail at the last multiple of the interval.
  abbrev pub IsFresh : Ring A → Type 0
  IsFresh r = r.shadow_tail + r.tail % 32 ≡ r.tail

  -- The cache that the push leaves.
  pub cache_after : Cache → Ring A → Cache
  cache_after c r = if ltb (r.head - c.cached_shadow_tail) r.capacity then c else record {
    cached_shadow_tail = r.shadow_tail;
    skip_count =
        if not (ltb (r.head - r.shadow_tail) r.capacity) && r.shadow_tail == c.cached_shadow_tail
        then skip_count_on_persistent_full
        else c.skip_count;
  }

  claimed-next :
      (r : Ring A) (sched : Schedule A)
      → IsValid r
      → r.head - r.shadow_tail < r.capacity
      → wait_slot (r.head % r.capacity) sched (record r { head = add_size r.head 1 })
        ≡ some (claim r)
  claimed-next r sched v h =
      wait_slot-empty sched (r.head % r.capacity) (record r { head = add_size r.head 1 })
        (v.free r.head (omega arith) (omega (arith, v.behind, v.order)))

  shadow_loop-room :
      (wfc is_wfc : Bool) (o : Ring A → Ring A) (sched : Schedule A) (spins : ℕ) (c : Cache)
      (r : Ring A)
      → IsValid r
      → c.cached_shadow_tail ≤ r.shadow_tail
      → r.head - r.shadow_tail < r.capacity
      → shadow_loop wfc is_wfc ((λ q. q) ∷ o ∷ sched) r.head spins c r
        ≡ some (pos (r.head % r.capacity), cache_after c r, claim r)
  unfolding shadow_loop shadow_round cache_after
  shadow_loop-room wfc is_wfc o sched spins c r v b h =
      ground
        (arith, claimed-next r sched v h, claimed-next r (o ∷ sched) v h, v.behind, v.order, v.fits)

  shadow_loop-full :
      (wfc : Bool) (o : Ring A → Ring A) (sched : Schedule A) (spins : ℕ) (c : Cache) (r : Ring A)
      → IsValid r
      → r.policy ≡ drop_newest
      → c.cached_shadow_tail ≤ r.shadow_tail
      → r.capacity ≤ r.head - r.shadow_tail
      → shadow_loop wfc false (o ∷ sched) r.head spins c r
        ≡ some (negsuc 0, cache_after c r, count_drop r)
  unfolding shadow_loop shadow_round cache_after
  shadow_loop-full wfc o sched spins c r v p b h = ground (arith, v.behind, v.order, v.fits)

  try_push-large_room :
      (wfc shadow : Bool) (o : Ring A → Ring A) (sched : Schedule A) (x : A) (c : Cache)
      (r : Ring A)
      → IsValid r
      → IsLarge shadow r
      → c.skip_count ≡ 0
      → c.cached_shadow_tail ≤ r.shadow_tail
      → r.head - r.shadow_tail < r.capacity
      → try_push wfc shadow ((λ q. q) ∷ o ∷ sched) x c r
        ≡ some (
          true,
          cache_after c r,
          notify_consumer_if_waiting (filled r x (r.slots (r.head % r.capacity)).wfc),
        )
  unfolding try_push acquire_slot acquire_slot_with_shadow_tail
  try_push-large_room wfc shadow o sched x c r v big z b h =
      ground (arith, v.live, shadow_loop-room wfc false o sched 0 c r v b h, commit-claim x v)

  try_push-large_full :
      (wfc shadow : Bool) (o : Ring A → Ring A) (sched : Schedule A) (x : A) (c : Cache)
      (r : Ring A)
      → IsValid r
      → IsLarge shadow r
      → r.policy ≡ drop_newest
      → c.skip_count ≡ 0
      → c.cached_shadow_tail ≤ r.shadow_tail
      → r.capacity ≤ r.head - r.shadow_tail
      → try_push wfc shadow (o ∷ sched) x c r ≡ some (false, cache_after c r, count_drop r)
  unfolding try_push acquire_slot acquire_slot_with_shadow_tail
  try_push-large_full wfc shadow o sched x c r v big p z b h =
      ground (arith, v.live, shadow_loop-full wfc o sched 0 c r v p b h)

  -- On a valid large ring under DropNewest whose shadow tail is fresh, a `TryPush` with no skips
  -- pending and a cached shadow tail not ahead of the shared one returns in two undisturbed rounds.
  -- Judging by the shadow tail it either appends the entry, or leaves the contents as they are,
  -- counts a drop and returns false; it does the latter only if at most 31 places are free.
  pub try_push-large_newest :
      (wfc shadow : Bool) (o : Ring A → Ring A) (sched : Schedule A) (x : A) (c : Cache)
      (r : Ring A)
      → IsValid r
      → IsLarge shadow r
      → IsFresh r
      → r.policy ≡ drop_newest
      → c.skip_count ≡ 0
      → c.cached_shadow_tail ≤ r.shadow_tail
      → r.head + 1 < size_mod
      → let roomy = ltb (r.head - r.shadow_tail) r.capacity in
        Pushed r
          (cache_after c r)
          (if roomy then (true, contents r ++ (x ∷ [])) else (false, contents r))
          (if roomy then r.dropped_count else add_size r.dropped_count 1)
          (try_push wfc shadow ((λ q. q) ∷ o ∷ sched) x c r)
        × ((roomy ≡ true) ⊎ (r.capacity ≤ length (contents r) + 31))
  try_push-large_newest wfc shadow o sched x c r v big fresh p z b l =
      elim (Bool-cases (ltb (r.head - r.shadow_tail) r.capacity)) [
        | inl room ↦
            let w = (r.slots (r.head % r.capacity)).wfc in
            let f = filled-IsValid x w v (ground (arith, v.behind, v.order)) l in
            let n = notify-IsValid f.0 in
            (
              rw room (record {
                after = notify_consumer_if_waiting (filled r x w);
                returned = try_push-large_room wfc shadow o sched x c r v big z b (ground arith);
                valid = n.0;
                queue = n.1 ∙ f.1;
                counted = ap (λ (q : Ring A). q.dropped_count) (notify-eq (filled r x w));
                same_capacity = ap (λ (q : Ring A). q.capacity) (notify-eq (filled r x w));
              }),
              inl room,
            )
        | inr full ↦ (
          rw full (record {
            after = count_drop r;
            returned =
                try_push-large_full wfc shadow (λ q. q) (o ∷ sched) x c r v big p z b
                  (ground arith);
            valid =
                reframe-IsValid r.shadow_tail (add_size r.dropped_count 1) r.notifications v
                  v.behind;
            queue = refl;
            counted = refl;
            same_capacity = refl;
          }),
          inr (ground (arith, length-contents r, v.behind, v.order)),
        )
      ]

  -- `TryPop` with the shadow tail enabled keeps it fresh.
  pub try_pop-IsFresh :
      (wfc : Bool) (r : Ring A) → IsValid r → IsFresh r → IsFresh (try_pop wfc true r).1
  try_pop-IsFresh wfc r v fresh = elim (Bool-cases (ltb r.tail r.head)) [
    | inl some_left ↦ rw (try_pop-ready wfc true v (ground arith)) (ground (arith, v.fits))
    | inr nothing ↦ rw (try_pop-empty wfc true v (ground (arith, v.order))) fresh
  ]
