-- ===== src/RingBuffer/State.antt =====
-- `RingBufferHeader`, the members of `RingBufferBase` and `ProducerLocalCache` (heap_memory.hpp).
-- Header, buffer and slot array stand in one record; they live in memory that the threads share.
use oneplog.Prelude.{
  ℕ, ◌+◌, ◌-◌, ◌%◌, ◌^◌, Bool, true, false, ◌&&◌, ◌==◌, if◌then◌else◌, ltb, update,
}
use oneplog.RingBuffer.Slot
use oneplog.RingBuffer.Slot.{SlotStatus}

-- `size_t` and `uint64_t` arithmetic
abbrev pub size_mod : ℕ
size_mod = 2 ^ 64

abbrev pub add_size : ℕ → ℕ → ℕ
add_size a b = (a + b) % size_mod

abbrev pub sub_size : ℕ → ℕ → ℕ
sub_size a b = (a + size_mod - b) % size_mod

pub data QueueFullPolicy : Type 0 where
  block drop_newest drop_oldest : QueueFullPolicy

pub data ConsumerState : Type 0 where
  active waiting_notify : ConsumerState

abbrev pub shadow_tail_update_interval : ℕ
shadow_tail_update_interval = 32

abbrev pub skip_count_on_persistent_full : ℕ
skip_count_on_persistent_full = 31

abbrev pub header_magic : ℕ
header_magic = 0x4f4e_4550

abbrev pub header_version : ℕ
header_version = 1

-- `live` says that the three pointers are set (they are set and cleared together); `has_event_fd`
-- that `m_eventFd >= 0`; `notifications` is that descriptor's counter,
-- to which a write adds one.
pub record Ring (A : Type 0) : Type 0 where
  pub live : Bool
  pub head : ℕ
  pub tail : ℕ
  pub shadow_tail : ℕ
  pub consumer_state : ConsumerState
  pub dropped_count : ℕ
  pub capacity : ℕ
  pub policy : QueueFullPolicy
  pub magic : ℕ
  pub version : ℕ
  pub buffer : ℕ → A
  pub slots : ℕ → SlotStatus
  pub has_event_fd : Bool
  pub notifications : ℕ

-- `thread_local ProducerLocalCache`
pub record Cache : Type 0 where
  pub cached_shadow_tail : ℕ
  pub skip_count : ℕ

abbrev pub fresh_cache : Cache
fresh_cache = record { cached_shadow_tail = 0; skip_count = 0 }

-- `RingBufferHeader::Init`
abbrev pub init_header : {A : Type 0} → ℕ → QueueFullPolicy → Ring A → Ring A
init_header cap pol r = record r {
  head = 0;
  tail = 0;
  shadow_tail = 0;
  consumer_state = active;
  dropped_count = 0;
  capacity = cap;
  policy = pol;
  magic = header_magic;
  version = header_version;
}

-- `InitWithExternalMemory`, with the memory's header, buffer and slots in the ring given.
abbrev pub init_with_external_memory : {A : Type 0} → Bool → ℕ → QueueFullPolicy → Ring A → Ring A
init_with_external_memory init cap pol r =
    let attached = record r { live = true } in
    if init
    then record (init_header cap pol attached) {
      slots = λ i. if ltb i cap then Slot.reset else attached.slots i;
    }
    else attached

-- `HeapRingBuffer(capacity, policy)`: `d` is the value that the vector of `T` is filled with, and
-- `fd` says whether `eventfd` succeeded.
unfoldable pub new_ring : {A : Type 0} → A → Bool → ℕ → QueueFullPolicy → Ring A
unfolding Slot.reset
new_ring {A} d fd cap pol =
    let storage : Ring A = record {
      live = false;
      head = 0;
      tail = 0;
      shadow_tail = 0;
      consumer_state = active;
      dropped_count = 0;
      capacity = 0;
      policy = drop_newest;
      magic = 0;
      version = 0;
      buffer = λ _. d;
      slots = λ _. record { state = Slot.SlotState.empty; wfc = Slot.WfcState.wfc_none };
      has_event_fd = false;
      notifications = 0;
    } in
    record (init_with_external_memory true cap pol storage) { has_event_fd = fd }

abbrev pub is_waiting : ConsumerState → Bool
is_waiting active = false
is_waiting waiting_notify = true

module _ {A : Type 0} where
  -- `RingBufferHeader::IsValid`
  unfoldable pub header_is_valid : Ring A → Bool
  header_is_valid r = r.magic == header_magic && r.version == header_version

  abbrev pub set_slot : Ring A → ℕ → SlotStatus → Ring A
  set_slot r i s = record r { slots = update r.slots i s }

  abbrev pub set_item : Ring A → ℕ → A → Ring A
  set_item r i x = record r { buffer = update r.buffer i x }

  abbrev pub count_drop : Ring A → Ring A
  count_drop r = record r { dropped_count = add_size r.dropped_count 1 }

  unfoldable pub do_notify : Ring A → Ring A
  do_notify r = if r.has_event_fd then record r { notifications = r.notifications + 1 } else r

  unfoldable pub notify_consumer_if_waiting : Ring A → Ring A
  unfolding do_notify
  notify_consumer_if_waiting r = if r.live && is_waiting r.consumer_state then do_notify r else r

-- `SpinWait`: the next spin count. The pause and the yield it makes have no effect on the state.
unfoldable pub spin_wait : ℕ → ℕ
spin_wait n = if ltb n 1000 then n + 1 else if ltb n 2000 then n + 1 else 0
