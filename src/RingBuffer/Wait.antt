-- ===== src/RingBuffer/Wait.antt =====
-- `WaitForData`, `DoWait` and the accessors of the shared state (heap_memory.hpp, on Linux).
-- What other threads do while a call runs is given at the places where it matters.
use oneplog.Prelude.{ℕ, Bool, true, false, not, ◌||◌, if◌then◌else◌, List, [], ◌∷◌}
use oneplog.RingBuffer.State.{
  Ring, ConsumerState, active, waiting_notify, QueueFullPolicy, drop_newest, do_notify,
}
use oneplog.RingBuffer.Pop.{is_empty}

-- The event descriptor, by its counter: whether `poll` reports POLLIN, and what a `read` leaves.
pub record EventFd : Type 0 where
  pub poll_in : ℕ → Bool
  pub read_one : ℕ → ℕ

module _ {A : Type 0} where
  unfoldable pub set_policy : QueueFullPolicy → Ring A → Ring A
  set_policy p r = if r.live then record r { policy = p } else r

  unfoldable pub get_policy : Ring A → QueueFullPolicy
  get_policy r = if r.live then r.policy else drop_newest

  unfoldable pub get_dropped_count : Ring A → ℕ
  get_dropped_count r = if r.live then r.dropped_count else 0

  unfoldable pub reset_dropped_count : Ring A → Ring A
  reset_dropped_count r = if r.live then record r { dropped_count = 0 } else r

  unfoldable pub get_capacity : Ring A → ℕ
  get_capacity r = if r.live then r.capacity else 0

  unfoldable pub get_consumer_state : Ring A → ConsumerState
  get_consumer_state r = if r.live then r.consumer_state else active

  unfoldable pub notify_consumer : Ring A → Ring A
  notify_consumer r = do_notify r

  abbrev pub set_state : ConsumerState → Ring A → Ring A
  set_state c r = record r { consumer_state = c }

  -- `DoWait`: `others` act until `poll`, or the sleep without a descriptor, returns.
  unfoldable pub do_wait : EventFd → (Ring A → Ring A) → Ring A → Bool × Ring A
  do_wait e others r =
      let r' = others r in
      if r'.has_event_fd
      then if e.poll_in r'.notifications
        then (true, record r' { notifications = e.read_one r'.notifications })
        else (false, r')
      else (not (is_empty r'), r')

  -- The polling loop: one element per round before the deadline, what others do in that round.
  unfoldable pub poll_data : List (Ring A → Ring A) → Ring A → Bool × Ring A
  poll_data [] r = (false, r)
  poll_data (others ∷ rounds) r =
      let rest = poll_data rounds (others r) in if not (is_empty r) then (true, r) else rest

  -- The rest of `WaitForData` once the deadline of the polling has passed: `missed` is what others
  -- do between the last test of the polling and the store of WaitingNotify, `before` what they do
  -- between that store and the test behind it, and `during` what they do in `DoWait`.
  unfoldable pub sleep_for_data :
      EventFd → (Ring A → Ring A) → (Ring A → Ring A) → (Ring A → Ring A) → Ring A → Bool × Ring A
  sleep_for_data e missed before during r =
      let waiting = before (set_state waiting_notify (missed r)) in
      let (has_data, r') = do_wait e during waiting in
      let awake = set_state active r' in
      if not (is_empty r)
      then (true, r)
      else if not (is_empty waiting)
      then (true, set_state active waiting)
      else (has_data || not (is_empty awake), awake)

  unfoldable pub wait_for_data :
      EventFd
      → List (Ring A → Ring A)
      → (Ring A → Ring A)
      → (Ring A → Ring A)
      → (Ring A → Ring A)
      → Ring A
      → Bool × Ring A
  wait_for_data e rounds missed before during r =
      let (found, r') = poll_data rounds (set_state active r) in
      if not r.live
      then (false, r)
      else if found
      then (true, r')
      else sleep_for_data e missed before during r'
