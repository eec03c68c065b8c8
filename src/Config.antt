-- ===== src/Config.antt =====
-- include/dsf_mmu/mmu_config.h, and how `mmu_init` of src/mmu_api.cpp fills in what is 0.
pub mod Bounds
use mmu.Prelude.{
  ℕ, ◌-◌, ◌*◌, ◌/◌, ℤ, pos, negsuc, Bool, ◌||◌, List, ltb, ◌==◌, if◌then◌else◌, u64_mod,
}

pub data Arch : Type 0 where
  uma discrete_gpu cuda_host : Arch

pub record Config : Type 0 where
  pub size : ℕ
  pub api_version : ℕ
  pub arch : Arch
  pub l1_block_count : ℕ
  pub l1_resident_block_limit : ℕ
  pub l2_block_count : ℕ
  pub block_size_bytes : ℕ
  pub chunk_block_count : ℕ

-- sizeof(mmu_config_t): eight fields of four bytes.
abbrev pub sizeof_config : ℕ
sizeof_config = 32

-- MMU_API_VERSION
abbrev pub api_version : ℕ
api_version = 1

abbrev pub default_config : Config
default_config = record {
  size = sizeof_config;
  api_version = api_version;
  arch = uma;
  l1_block_count = 1024;
  l1_resident_block_limit = 0;
  l2_block_count = 0;
  block_size_bytes = 4096;
  chunk_block_count = 4096;
}

-- What the program asks of its host: the two answers of `sysconf`, whether the n-th
-- `new (std::nothrow) uint8_t[bytes]` succeeds, and the address of a new context, given those of
-- the live ones.
pub record Host : Type 0 where
  pub page_count : ℤ
  pub page_size : ℤ
  pub new_succeeds : ℕ → ℕ → Bool
  pub new_handle : List ℕ → ℕ

-- kDefaultChunkBlockCount and kAutoResidentBudgetDivisor
abbrev pub default_chunk_block_count : ℕ
default_chunk_block_count = 4096

abbrev pub auto_resident_budget_divisor : ℕ
auto_resident_budget_divisor = 2

available_pages : ℤ → ℤ → ℕ
available_pages (negsuc _) size = 0
available_pages (pos pages) (negsuc _) = 0
available_pages (pos pages) (pos size) =
    if pages == 0 || size == 0
    then 0
    else if ltb ((u64_mod - 1) / size) pages
    then 0
    else pages * size

unfoldable pub query_available_host_memory_bytes : Host → ℕ
unfolding available_pages
query_available_host_memory_bytes h = available_pages h.page_count h.page_size

abbrev at_least_one : ℕ → ℕ
at_least_one n = if n == 0 then 1 else n

abbrev at_most : ℕ → ℕ → ℕ
at_most limit n = if ltb limit n then limit else n

unfoldable pub resolve_auto_resident_limit : Host → Config → ℕ
resolve_auto_resident_limit h cfg =
    if cfg.l1_block_count == 0 || cfg.block_size_bytes == 0
    then 0
    else let available_bytes = query_available_host_memory_bytes h in
      if available_bytes == 0
      then cfg.l1_block_count
      else let budget_bytes = available_bytes / auto_resident_budget_divisor in
        at_most cfg.l1_block_count (at_least_one (budget_bytes / cfg.block_size_bytes))

abbrev or_whole : ℕ → ℕ → ℕ
or_whole whole n = if n == 0 || ltb whole n then whole else n

abbrev resolved_limit : Host → Config → ℕ
resolved_limit h cfg = or_whole cfg.l1_block_count (
    if cfg.l1_resident_block_limit == 0
    then resolve_auto_resident_limit h cfg
    else cfg.l1_resident_block_limit)

abbrev resolved_chunk : Config → ℕ
resolved_chunk cfg =
    at_most cfg.l1_block_count
      (if cfg.chunk_block_count == 0 then default_chunk_block_count else cfg.chunk_block_count)

-- The defaults that `mmu_init` resolves.
unfoldable pub resolve : Host → Config → Config
resolve h cfg = record cfg {
  l1_resident_block_limit = resolved_limit h cfg;
  l2_block_count = or_whole cfg.l1_block_count cfg.l2_block_count;
  chunk_block_count = resolved_chunk cfg;
}
