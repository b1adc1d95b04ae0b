-- ===== src/SharedMemory/Layout.antt =====
-- `AlignUp`, `CalculateRequiredSize` and the offsets of `Create` and `Connect`
-- (include/oneplog/internal/shared_memory.hpp), in `size_t`; a cache line has 64 bytes.
use Prim.Native.Nat.{bit_and}
use oneplog.Prelude.{ℕ, ◌-◌, ◌*◌, ◌%◌}
use oneplog.RingBuffer.State.{size_mod, add_size, sub_size}

abbrev pub cache_line_size : ℕ
cache_line_size = 64

abbrev pub mul_size : ℕ → ℕ → ℕ
mul_size a b = (a * b) % size_mod

-- `(value + alignment - 1) & ~(alignment - 1)`
unfoldable pub align_up : ℕ → ℕ → ℕ
align_up value alignment =
    bit_and (sub_size (add_size value alignment) 1) (size_mod - 1 - sub_size alignment 1)

-- `sizeof` of the structures that lie in the segment.
pub record Sizes : Type 0 where
  pub metadata : ℕ
  pub config : ℕ
  pub name_table : ℕ
  pub header : ℕ
  pub slot : ℕ
  pub item : ℕ

module _ (z : Sizes) where
  -- `SharedRingBuffer`
  unfoldable pub slots_offset : ℕ
  slots_offset = align_up z.header cache_line_size

  unfoldable pub buffer_offset : ℕ → ℕ
  buffer_offset capacity =
      add_size slots_offset (align_up (mul_size z.slot capacity) cache_line_size)

  unfoldable pub ring_required_size : ℕ → ℕ
  ring_required_size capacity =
      let header_bytes = align_up z.header cache_line_size in
      let slot_bytes = align_up (mul_size z.slot capacity) cache_line_size in
      let buffer_bytes = align_up (mul_size z.item capacity) cache_line_size in
      add_size (add_size header_bytes slot_bytes) buffer_bytes

  -- `SharedMemory`
  unfoldable pub config_offset : ℕ
  config_offset = align_up z.metadata cache_line_size

  unfoldable pub name_table_offset : ℕ
  name_table_offset = add_size config_offset (align_up z.config cache_line_size)

  unfoldable pub ring_offset : ℕ
  ring_offset = add_size name_table_offset (align_up z.name_table cache_line_size)

  unfoldable pub required_size : ℕ → ℕ
  required_size capacity =
      let metadata_bytes = align_up z.metadata cache_line_size in
      let config_bytes = align_up z.config cache_line_size in
      let name_bytes = align_up z.name_table cache_line_size in
      add_size (add_size (add_size metadata_bytes config_bytes) name_bytes)
        (ring_required_size capacity)
