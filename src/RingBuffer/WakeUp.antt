-- ===== src/RingBuffer/WakeUp.antt =====
-- A push while the consumer goes to sleep in `WaitForData` (heap_memory.hpp).
use oneplog.Prelude.{ℕ, ◌≡◌, Bool, true, [], ◌∷◌, arith}
use oneplog.RingBuffer.Slot.{WfcState}
use oneplog.RingBuffer.State.{Ring, ConsumerState, active, notify_consumer_if_waiting}
use oneplog.RingBuffer.Pop.{is_empty}
use oneplog.RingBuffer.Inv.{IsValid, contents, filled}

module _ {A : Type 0} where
  -- The commit of a slot, where there is room, and the commit with the notification behind it. Each
  -- access is seen by all threads in the order in which it happens.
  abbrev pub committed : A → WfcState → Ring A → Ring A
  committed x w r = filled r x w

  abbrev pub pushed : A → WfcState → Ring A → Ring A
  pushed x w r = notify_consumer_if_waiting (filled r x w)

  -- When the commit of a push and its notification come while the consumer goes to sleep: between
  -- the last test of the polling and the store of WaitingNotify, between that store and the test
  -- behind it, or while the consumer waits. Where the notification is left out it comes later.
  pub data Arrival (x : A) (w : WfcState)
      : (Ring A → Ring A) → (Ring A → Ring A) → (Ring A → Ring A) → Type 0 where
    missed_whole : (during : Ring A → Ring A) → Arrival x w (pushed x w) (λ q. q) during
    missed_notice_before :
        (during : Ring A → Ring A) → Arrival x w (committed x w) notify_consumer_if_waiting during
    missed_notice_later : (during : Ring A → Ring A) → Arrival x w (committed x w) (λ q. q) during
    before_whole : (during : Ring A → Ring A) → Arrival x w (λ q. q) (pushed x w) during
    before_notice_later : (during : Ring A → Ring A) → Arrival x w (λ q. q) (committed x w) during
    asleep : Arrival x w (λ q. q) (λ q. q) (pushed x w)

  pub empty-IsValid : {r : Ring A} → IsValid r → r.head ≡ r.tail → is_empty r ≡ true
  unfolding is_empty
  empty-IsValid {r} v e =
      ground (arith, v.live, v.free r.tail (omega arith) (omega (arith, v.cap_pos)))

  -- What a call that the push wakes up comes to.
  pub record Woken (r : Ring A) (x : A) (out : Bool × Ring A) : Type 0 where
    pub found : out.0 ≡ true
    pub valid : IsValid out.1
    pub queue : contents out.1 ≡ x ∷ []
    pub awake : out.1.consumer_state ≡ active

  -- The state in which the consumer finds the entry.
  abbrev woken : A → WfcState → ℕ → ConsumerState → Ring A → Ring A
  woken x w n c r = record (filled r x w) { notifications = n; consumer_state = c }
