-- ===== src/SharedMemory/Segment.antt =====
-- `SharedMemoryMetadata`, and `Create`, `Connect` and the destructor of `SharedMemory`, with those of
-- `SharedRingBuffer` (include/oneplog/internal/shared_memory.hpp). What the system answers is a
-- parameter; what is asked of it is recorded as a list of events, the first one first.
use oneplog.Prelude.{
  ℕ, ◌+◌, Bool, true, false, not, ◌&&◌, ◌||◌, ◌==◌, if◌then◌else◌, ltb, Option, none, some, List,
  [], ◌∷◌, ◌++◌,
}
use oneplog.RingBuffer.State.{QueueFullPolicy, header_magic, header_version}
use oneplog.SharedMemory.Layout.{
  Sizes, ring_required_size, required_size, config_offset, name_table_offset, ring_offset,
}

pub record Metadata : Type 0 where
  pub magic : ℕ
  pub version : ℕ
  pub total_size : ℕ
  pub config_at : ℕ
  pub name_table_at : ℕ
  pub ring_at : ℕ
  pub ring_capacity : ℕ
  pub policy : QueueFullPolicy

abbrev pub metadata_magic : ℕ
metadata_magic = 0x4f4e_4550

abbrev pub metadata_version : ℕ
metadata_version = 1

unfoldable pub init_metadata : ℕ → ℕ → ℕ → ℕ → ℕ → QueueFullPolicy → Metadata
init_metadata total config_off name_off ring_off capacity pol = record {
  magic = metadata_magic;
  version = metadata_version;
  total_size = total;
  config_at = config_off;
  name_table_at = name_off;
  ring_at = ring_off;
  ring_capacity = capacity;
  policy = pol;
}

unfoldable pub metadata_is_valid : Metadata → Bool
metadata_is_valid m = m.magic == metadata_magic && m.version == metadata_version

-- What `Connect` reads of a segment: the metadata, and of the ring's header the identification and
-- the capacity.
pub record Segment : Type 0 where
  pub metadata : Metadata
  pub ring_magic : ℕ
  pub ring_version : ℕ
  pub capacity : ℕ

-- `SharedRingBuffer::Create`: whether it gives a ring, for memory at an address, its size and the
-- capacity.
unfoldable pub ring_create : Sizes → ℕ → ℕ → ℕ → Bool
ring_create z memory size capacity =
    if (memory == 0) || (capacity == 0)
    then false
    else not (ltb size (ring_required_size z capacity))

-- `SharedRingBuffer::Connect`: the same, where the header is what the memory holds.
unfoldable pub ring_connect : Sizes → ℕ → ℕ → Segment → Bool
ring_connect z memory size s =
    if memory == 0
    then false
    else if not (s.ring_magic == header_magic && s.ring_version == header_version)
    then false
    else not (ltb size (ring_required_size z s.capacity))

-- What the system answers: a descriptor, or none for -1; whether `ftruncate` succeeds; the size from
-- `fstat`; the address from `mmap`, or none for MAP_FAILED.
pub record Answers : Type 0 where
  pub opened : Option ℕ
  pub truncated : Bool
  pub stat_size : Option ℕ
  pub mapped : Option ℕ

-- What was done: a resource acquired or given back.
pub data Event : Type 0 where
  opens closes : ℕ → Event
  maps unmaps : ℕ → Event
  links unlinks : Event

-- The members that the destructor looks at; `fd` is none for -1.
pub record Handle : Type 0 where
  pub is_owner : Bool
  pub named : Bool
  pub memory : ℕ
  pub size : ℕ
  pub fd : Option ℕ

abbrev close_fd : Option ℕ → List Event
close_fd none = []
close_fd (some fd) = closes fd ∷ []

unfoldable pub destroy : Handle → List Event
destroy h =
    (if not (h.memory == 0) && ltb 0 h.size then unmaps h.memory ∷ [] else [])
    ++ close_fd h.fd
    ++ (if h.is_owner && h.named then unlinks ∷ [] else [])

-- What `Create` leaves in the segment.
unfoldable pub created_segment : Sizes → ℕ → QueueFullPolicy → Segment
created_segment z capacity pol = record {
  metadata =
      init_metadata (required_size z capacity) (config_offset z) (name_table_offset z)
        (ring_offset z) capacity pol;
  ring_magic = header_magic;
  ring_version = header_version;
  capacity = capacity;
}

module _ (z : Sizes) (a : Answers) where
  -- `Create` once the memory is mapped.
  unfoldable pub create_mapped : ℕ → ℕ → ℕ → ℕ → Option Handle × List Event
  create_mapped capacity total fd memory =
      let h : Handle = record {
        is_owner = true;
        named = true;
        memory = memory;
        size = total;
        fd = some fd;
      } in
      let ring_memory = memory + ring_offset z in
      if ring_create z ring_memory (ring_required_size z capacity) capacity
      then (some h, [])
      else (none, destroy h)

  -- `Create`, for whether the name is empty and the capacity.
  unfoldable pub create : Bool → ℕ → Option Handle × List Event
  create no_name capacity =
      let total = required_size z capacity in
      if no_name || (capacity == 0) then (none, []) else elim a.opened [
        | none ↦ (none, [])
        | some fd ↦
            if not a.truncated
            then (none, opens fd ∷ links ∷ closes fd ∷ unlinks ∷ [])
            else elim a.mapped [
              | none ↦ (none, opens fd ∷ links ∷ closes fd ∷ unlinks ∷ [])
              | some memory ↦
                  let (out, events) = create_mapped capacity total fd memory in
                  (out, opens fd ∷ links ∷ maps memory ∷ events)
            ]
      ]

  -- `Connect` once the memory is mapped. Where the ring is refused, the memory and the descriptor are
  -- given back, and then the handle is destroyed.
  unfoldable pub connect_mapped : Segment → ℕ → ℕ → ℕ → Option Handle × List Event
  connect_mapped s total fd memory =
      let h : Handle = record {
        is_owner = false;
        named = true;
        memory = memory;
        size = total;
        fd = some fd;
      } in
      let ring_size = ring_required_size z s.metadata.ring_capacity in
      if not (metadata_is_valid s.metadata)
      then (none, unmaps memory ∷ closes fd ∷ [])
      else if ring_connect z (memory + s.metadata.ring_at) ring_size s
      then (some h, [])
      else (none, unmaps memory ∷ closes fd ∷ destroy h)

  unfoldable pub connect : Bool → Segment → Option Handle × List Event
  connect no_name s = if no_name then (none, []) else elim a.opened [
    | none ↦ (none, [])
    | some fd ↦ elim a.stat_size [
      | none ↦ (none, opens fd ∷ closes fd ∷ [])
      | some total ↦ elim a.mapped [
        | none ↦ (none, opens fd ∷ closes fd ∷ [])
        | some memory ↦
            let (out, events) = connect_mapped s total fd memory in
            (out, opens fd ∷ maps memory ∷ events)
      ]
    ]
  ]
