-- ===== src/RingBuffer/Slot.antt =====
-- `SlotStatus` (heap_memory.hpp): the two atomic words of a slot, each operation as the transition
-- that it makes. A compare-exchange returns whether it succeeded.
use oneplog.Prelude.{Bool, true, false, ◌≡◌, arith}

-- `enum class SlotState`
pub data SlotState : Type 0 where
  empty writing ready reading : SlotState

-- `WFCState`: kWFCNone, kWFCEnabled, kWFCCompleted
pub data WfcState : Type 0 where
  wfc_none wfc_enabled wfc_completed : WfcState

pub record SlotStatus : Type 0 where
  pub state : SlotState
  pub wfc : WfcState

unfoldable pub reset : SlotStatus
reset = record { state = empty; wfc = wfc_none }

abbrev pub state_is_empty : SlotState → Bool
state_is_empty empty = true
state_is_empty _ = false

abbrev pub state_is_ready : SlotState → Bool
state_is_ready ready = true
state_is_ready _ = false

abbrev pub wfc_is_enabled : WfcState → Bool
wfc_is_enabled wfc_enabled = true
wfc_is_enabled _ = false

abbrev pub wfc_is_completed : WfcState → Bool
wfc_is_completed wfc_completed = true
wfc_is_completed _ = false

abbrev pub is_empty : SlotStatus → Bool
is_empty s = state_is_empty s.state

abbrev pub is_ready : SlotStatus → Bool
is_ready s = state_is_ready s.state

abbrev pub is_wfc_enabled : SlotStatus → Bool
is_wfc_enabled s = wfc_is_enabled s.wfc

abbrev pub is_wfc_completed : SlotStatus → Bool
is_wfc_completed s = wfc_is_completed s.wfc

abbrev acquire_from : SlotStatus → SlotState → Bool × SlotStatus
acquire_from s empty = (true, record s { state = writing })
acquire_from s _ = (false, s)

-- compare-exchange from Empty to Writing
unfoldable pub try_acquire : SlotStatus → Bool × SlotStatus
try_acquire s = acquire_from s s.state

unfoldable pub commit : SlotStatus → SlotStatus
commit s = record s { state = ready }

abbrev read_from : SlotStatus → SlotState → Bool × SlotStatus
read_from s ready = (true, record s { state = reading })
read_from s _ = (false, s)

-- compare-exchange from Ready to Reading
unfoldable pub try_start_read : SlotStatus → Bool × SlotStatus
try_start_read s = read_from s s.state

unfoldable pub complete_read : SlotStatus → SlotStatus
complete_read s = record s { state = empty }

unfoldable pub enable_wfc : SlotStatus → SlotStatus
enable_wfc s = record s { wfc = wfc_enabled }

unfoldable pub complete_wfc : SlotStatus → SlotStatus
complete_wfc s = record s { wfc = wfc_completed }

pub try_acquire-empty :
    (s : SlotStatus) → s.state ≡ empty → try_acquire s ≡ (true, record s { state = writing })
unfolding try_acquire
try_acquire-empty s h = ground arith

pub try_start_read-ready :
    (s : SlotStatus) → s.state ≡ ready → try_start_read s ≡ (true, record s { state = reading })
unfolding try_start_read
try_start_read-ready s h = ground arith

pub try_start_read-empty : (s : SlotStatus) → s.state ≡ empty → try_start_read s ≡ (false, s)
unfolding try_start_read
try_start_read-empty s h = ground arith
