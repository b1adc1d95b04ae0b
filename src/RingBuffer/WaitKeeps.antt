-- ===== src/RingBuffer/WaitKeeps.antt =====
-- What holds of the ring throughout `WaitForData` (heap_memory.hpp).
use oneplog.Prelude.{◌≡◌, refl, ℕ, Bool, true, false, not, if◌then◌else◌, List, [], ◌∷◌}
use oneplog.RingBuffer.State.{Ring, ConsumerState, active, waiting_notify}
use oneplog.RingBuffer.Inv.{IsValid, contents}
use oneplog.RingBuffer.PushSmall.{notify_consumer-eq}
use oneplog.RingBuffer.Pop.{is_empty}
use oneplog.RingBuffer.Wait.{
  notify_consumer, EventFd, set_state, do_wait, poll_data, sleep_for_data, wait_for_data,
}

pub waiting-IsValid :
    {A : Type 0} {r : Ring A} (s : ConsumerState) (n : ℕ)
    → IsValid r
    → IsValid (record r { consumer_state = s; notifications = n })
waiting-IsValid s n v = record {
  live = v.live;
  cap_pos = v.cap_pos;
  order = v.order;
  room = v.room;
  fits = v.fits;
  behind = v.behind;
  ready = v.ready;
  free = v.free;
}

pub notify_consumer-IsValid :
    {A : Type 0} {r : Ring A}
    → IsValid r
    → IsValid (notify_consumer r) × (contents (notify_consumer r) ≡ contents r)
notify_consumer-IsValid {r = r} v =
    rw (notify_consumer-eq r)
      (waiting-IsValid r.consumer_state (notify_consumer r).notifications v, refl)

-- A predicate that the state of the consumer and the counter of the descriptor do not matter to.
module _ {A : Type 0} (P : Ring A → Type 0)
    (on_wait : (r : Ring A) (s : ConsumerState) (n : ℕ)
      → P r
      → P (record r { consumer_state = s; notifications = n })) where
  unfoldable pub Keeps : (Ring A → Ring A) → Type 0
  Keeps o = (r : Ring A) → P r → P (o r)

  abbrev pub AllKeep : List (Ring A → Ring A) → Type 0
  AllKeep [] = Unit {0}
  AllKeep (o ∷ os) = Keeps o × AllKeep os

  keeps-if : (b : Bool) (x y : Bool × Ring A) → P x.1 → P y.1 → P (if b then x else y).1
  keeps-if true x y px py = px
  keeps-if false x y px py = py

  poll_data-keeps :
      (os : List (Ring A → Ring A)) (r : Ring A) → AllKeep os → P r → P (poll_data os r).1
  unfolding poll_data Keeps
  poll_data-keeps [] r h p = p
  poll_data-keeps (o ∷ os) r h p =
      keeps-if (not (is_empty r)) _ _ p (poll_data-keeps os (o r) h.1 (h.0 r p))

  do_wait-keeps :
      (e : EventFd) (o : Ring A → Ring A) (r : Ring A) → Keeps o → P r → P (do_wait e o r).1
  unfolding do_wait Keeps
  do_wait-keeps e o r h p =
      keeps-if (o r).has_event_fd _ _
        (keeps-if (e.poll_in (o r).notifications) _ _
          (on_wait (o r) (o r).consumer_state (e.read_one (o r).notifications) (h r p)) (h r p))
        (h r p)

  sleep_for_data-keeps :
      (e : EventFd) (missed before during : Ring A → Ring A) (r : Ring A)
      → Keeps missed
      → Keeps before
      → Keeps during
      → P r
      → P (sleep_for_data e missed before during r).1
  unfolding sleep_for_data Keeps
  sleep_for_data-keeps e missed before during r hm hb hd p =
      let waiting = before (set_state waiting_notify (missed r)) in
      let there = missed r in
      let pw =
        hb (set_state waiting_notify there)
          (on_wait there waiting_notify there.notifications (hm r p)) in
      let out = (do_wait e during waiting).1 in
      keeps-if (not (is_empty r)) _ _ p (
        keeps-if (not (is_empty waiting)) _ _ (on_wait waiting active waiting.notifications pw)
          (on_wait out active out.notifications (do_wait-keeps e during waiting hd pw)))

  pub wait_for_data-keeps :
      (e : EventFd) (polls : List (Ring A → Ring A)) (missed before during : Ring A → Ring A)
      (r : Ring A)
      → AllKeep polls
      → Keeps missed
      → Keeps before
      → Keeps during
      → P r
      → P (wait_for_data e polls missed before during r).1
  unfolding wait_for_data
  wait_for_data-keeps e polls missed before during r hp hm hb hd p =
      let polled =
        poll_data-keeps polls (set_state active r) hp (on_wait r active r.notifications p) in
      let found = poll_data polls (set_state active r) in
      keeps-if (not r.live) _ _ p (
        keeps-if found.0 _ _ polled
          (sleep_for_data-keeps e missed before during found.1 hm hb hd polled))
