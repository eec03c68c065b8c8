-- ===== src/Config/Bounds.antt =====
-- What mmu_init guarantees of a runtime that it returns.
use mmu.Prelude.{◌≤◌, ◌<◌, Option, none, some, ◌≡◌, arith}
use mmu.Types.{OutPtr, ok}
use mmu.Config.{Config, Host, resolve}
use mmu.Runtime.{Runtime, new_runtime}
use mmu.Api.{mmu_init}

pub resolved_bounds :
    (h : Host) (c : Config)
    → 0 < c.l1_block_count
    → let r = resolve h c in
      (0 < r.l1_resident_block_limit)
      × (r.l1_resident_block_limit ≤ c.l1_block_count)
      × (0 < r.l2_block_count)
      × (r.l2_block_count ≤ c.l1_block_count)
      × (0 < r.chunk_block_count)
      × (r.chunk_block_count ≤ c.l1_block_count)
unfolding resolve
resolved_bounds h c p = ground arith

pub mmu_init-null : (h : Host) (o : OutPtr) (rt : Runtime) → mmu_init h none o ≡ ok rt → ⊥
unfolding mmu_init
mmu_init-null h o rt e = cc (e)

pub mmu_init-eq :
    (h : Host) (c : Config) (o : OutPtr) (rt : Runtime)
    → mmu_init h (some c) o ≡ ok rt
    → (rt ≡ new_runtime h (resolve h c)) × (0 < c.l1_block_count) × (0 < c.block_size_bytes)
unfolding mmu_init
mmu_init-eq h c o rt e = ground arith

-- A runtime that `mmu_init` returns has a resident limit, an L2 capacity and a chunk size between 1
-- and the number of blocks, whatever the host answers, and pages of at least one byte.
pub mmu_init-bounds :
    (h : Host) (c : Option Config) (o : OutPtr) (rt : Runtime)
    → mmu_init h c o ≡ ok rt
    → (0 < rt.resident_limit)
      × (rt.resident_limit ≤ rt.config.l1_block_count)
      × (0 < rt.config.l2_block_count)
      × (rt.config.l2_block_count ≤ rt.config.l1_block_count)
      × (0 < rt.config.chunk_block_count)
      × (rt.config.chunk_block_count ≤ rt.config.l1_block_count)
      × (0 < rt.config.block_size_bytes)
unfolding mmu_init new_runtime resolve
mmu_init-bounds h none o rt e = absurd (cc)
mmu_init-bounds h (some c) o rt e =
    let (same, blocks, bytes) = mmu_init-eq h c o rt e in
    let (a, b, k, d, f, g) = resolved_bounds h c blocks in rw same (a, b, k, d, f, g, bytes)
