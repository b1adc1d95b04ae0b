-- ===== src/RingBuffer/Queue.antt =====
-- What a client of the ring buffer is promised: a bounded FIFO with a policy for the full queue.
use oneplog.Prelude.{
  ℕ, Bool, true, false, if◌then◌else◌, leb, Option, none, some, List, [], ◌∷◌, ◌++◌, length, drop,
}

module _ {A : Type 0} where
  -- Reject the new entry.
  abbrev pub push_newest : ℕ → List A → A → Bool × List A
  push_newest cap q x = if leb cap (length q) then (false, q) else (true, q ++ (x ∷ []))

  -- Make room by giving up the oldest entry.
  abbrev pub push_oldest : ℕ → List A → A → Bool × List A
  push_oldest cap q x = (true, (if leb cap (length q) then drop 1 q else q) ++ (x ∷ []))

  abbrev pub poll : List A → Option A × List A
  poll [] = (none, [])
  poll (x ∷ q) = (some x, q)
