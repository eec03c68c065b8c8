-- ===== src/Types.antt =====
-- include/dsf_mmu/mmu_types.h: the public types.
use mmu.Prelude.{ℕ, ℤ, Bool, true, false}

-- mmu_tier_t
pub data Tier : Type 0 where
  l0 l1 l2 : Tier

-- mmu_status_t without MMU_STATUS_OK, which is `ok`.
pub data Error : Type 0 where
  invalid_argument out_of_memory unallocated not_found internal version_mismatch bad_handle : Error

-- What a call reports: a status, with the values of its output arguments where it succeeds.
-- `stuck` is no status: a loop of the model has run out of its fuel.
pub data Result {ℓ} (A : Type ℓ) : Type ℓ where
  ok : A → Result A
  err : Error → Result A
  stuck : Result A

-- An output argument `T* out`: only whether it is null matters, what it receives is returned.
pub data OutPtr : Type 0 where
  null ptr : OutPtr

pub record PhysicalRoute : Type 0 where
  pub tier : Tier
  pub physical_block_id : ℤ
  pub byte_offset : ℕ

abbrev pub is_null : OutPtr → Bool
is_null null = true
is_null ptr = false

-- map_flags_t: bit 0 is MMU_MAP_READ and bit 1 is MMU_MAP_WRITE.
abbrev pub map_read : ℕ
map_read = 1

abbrev pub map_write : ℕ
map_write = 2

-- A `uint8_t*` into a pool: block `block` of chunk `chunk`, at byte
-- `block * block_size_bytes` of that chunk.
pub record PagePtr : Type 0 where
  pub chunk : ℕ
  pub block : ℕ

pub record MappedBlock : Type 0 where
  pub host_ptr : PagePtr
  pub size_bytes : ℕ
  pub physical_block_id : ℤ
  pub logical_block_id : ℕ
  pub map_flags : ℕ
