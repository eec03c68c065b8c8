-- ===== src/Paging.antt =====
-- Lazy pages, src/mmu_api.cpp: chunks, the page of a block in either pool, and the copies between
-- the pools.
pub mod Apart
pub mod Pages
use mmu.Prelude.{
  ℕ, zero, suc, ◌+◌, ◌-◌, ◌*◌, ◌/◌, ◌%◌, ℤ, in_range, index, Bool, true, false, not, ◌&&◌, ◌||◌,
  List, [], ◌∷◌, ◌++◌, Option, none, some, length, set, ltb, leb, ◌==◌, if◌then◌else◌, inc32,
  u64_mod,
}
use mmu.Types.{PagePtr, OutPtr, ptr, is_null, ok, err, invalid_argument, out_of_memory}
use mmu.Exec.{Exec, pure, gets, fail_if, modify, ◌>>=◌, ◌>>◌}
use mmu.BlockDirectory
use mmu.ChunkPool
use mmu.ChunkPool.{ChunkPool, write_page, zero_page, raw_page, bytes_or_zero}
use mmu.Runtime.{Runtime, Pool, is_l2_pool, pool_of, with_pool, directory}

-- The loop that pushes the blocks of a new chunk, from block `i` on: the last one is on top.
abbrev pub push_blocks : ℕ → ℕ → ℕ → List PagePtr → List PagePtr
push_blocks chunk i zero free = free
push_blocks chunk i (suc n) free =
    push_blocks chunk (suc i) n (record { chunk = chunk; block = i } ∷ free)

unfoldable pub grow : ChunkPool → ℕ → ChunkPool
grow p blocks_per_chunk = record p {
  chunks = p.chunks ++ blocks_per_chunk ∷ [];
  free_blocks = push_blocks (length p.chunks) 0 blocks_per_chunk p.free_blocks;
}

-- `new (std::nothrow) uint8_t[bytes]`, null or not.
abbrev pub request : ℕ → Exec Runtime Bool
request bytes rt =
    (ok (rt.host.new_succeeds rt.requests bytes), record rt { requests = rt.requests + 1 })

-- AllocateChunk. A `size_t` has 64 bits.
unfoldable pub allocate_chunk : Pool → ℕ → Exec Runtime (Unit {0})
unfolding grow
allocate_chunk pool blocks_per_chunk = do
  block_size ← gets (λ rt. rt.config.block_size_bytes)
  fail_if (blocks_per_chunk == 0 || block_size == 0) invalid_argument
  let chunk_bytes = (blocks_per_chunk * block_size) % u64_mod
  fail_if (not (chunk_bytes / blocks_per_chunk == block_size)) invalid_argument
  chunk ← request chunk_bytes
  fail_if (not chunk) out_of_memory
  modify λ rt. with_pool rt pool (grow (pool_of rt pool) blocks_per_chunk)

abbrev pub bounded_l2 : Pool → Runtime → Bool
bounded_l2 pool rt = is_l2_pool pool && ltb 0 rt.config.l2_block_count

abbrev pub is_empty : List PagePtr → Bool
is_empty [] = true
is_empty (q ∷ qs) = false

abbrev chunk_size : Pool → Runtime → ℕ
chunk_size pool rt =
    if bounded_l2 pool rt
      && ltb (rt.config.l2_block_count - (pool_of rt pool).committed_pages)
          rt.config.chunk_block_count
    then rt.config.l2_block_count - (pool_of rt pool).committed_pages
    else rt.config.chunk_block_count

-- `remaining == 0`. The test before it has found committed_pages < l2_block_count.
abbrev none_remains : Pool → Runtime → Bool
none_remains pool rt =
    bounded_l2 pool rt && rt.config.l2_block_count - (pool_of rt pool).committed_pages == 0

unfoldable pub refill : Pool → Exec Runtime (Unit {0})
refill pool = do
  remaining_zero ← gets (none_remains pool)
  fail_if remaining_zero out_of_memory
  blocks_per_chunk ← gets (chunk_size pool)
  allocate_chunk pool blocks_per_chunk

-- `slot = free_blocks.back()`, its memset and `++committed_pages`.
abbrev pub take_page : ℕ → ℕ → ChunkPool → PagePtr → List PagePtr → ChunkPool
take_page i size p q rest =
    write_page
      (record p {
        free_blocks = rest;
        owner_pages = set p.owner_pages i (some q);
        committed_pages = inc32 p.committed_pages;
      })
      q size zero_page

unfoldable pub pop_free : Pool → ℕ → List PagePtr → Exec Runtime PagePtr
pop_free pool i [] rt = (err out_of_memory, rt)
pop_free pool i (q ∷ rest) rt =
    (ok q, with_pool rt pool (take_page i rt.config.block_size_bytes (pool_of rt pool) q rest))

-- The case `slot == nullptr` of AcquirePage.
unfoldable pub commit_page : Pool → ℕ → Exec Runtime PagePtr
commit_page pool i = do
  full ←
      gets
        (λ rt. bounded_l2 pool rt && leb rt.config.l2_block_count (pool_of rt pool).committed_pages)
  fail_if full out_of_memory
  dry ← gets (λ rt. is_empty (pool_of rt pool).free_blocks)
  if dry then refill pool else pure tt
  free_blocks ← gets (λ rt. (pool_of rt pool).free_blocks)
  pop_free pool i free_blocks

abbrev pub acquire_slot : Pool → ℕ → Option PagePtr → Exec Runtime PagePtr
acquire_slot pool i none = commit_page pool i
acquire_slot pool i (some q) = pure q

unfoldable pub acquire_page : Pool → ℤ → OutPtr → Exec Runtime PagePtr
acquire_page pool physical_block_id out_page = do
  capacity ← gets (λ rt. length (pool_of rt pool).owner_pages)
  fail_if (not (in_range physical_block_id capacity) || is_null out_page) invalid_argument
  slot ← gets (λ rt. ChunkPool.owner (pool_of rt pool) (index physical_block_id))
  acquire_slot pool (index physical_block_id) slot

-- CopyOrZero onto a page of the pool `dst`, from a page of the pool `src`.
abbrev pub copy_or_zero : Pool → Pool → Option PagePtr → PagePtr → Runtime → Runtime
copy_or_zero src dst source target rt = with_pool rt dst (
    write_page (pool_of rt dst) target rt.config.block_size_bytes
      (bytes_or_zero (pool_of rt src) source))

unfoldable pub sync_l1_to_l2 : ℤ → Exec Runtime (Unit {0})
sync_l1_to_l2 physical_block_id = do
  dst_l2 ← acquire_page Pool.l2_pool physical_block_id ptr
  src_l1 ← gets (λ rt. raw_page rt.l1_pool physical_block_id)
  modify (copy_or_zero Pool.l1_pool Pool.l2_pool src_l1 dst_l2)
  modify (directory λ d. BlockDirectory.set_has_l2_backing d physical_block_id true)
  modify (directory λ d. BlockDirectory.set_l2_slot_id d physical_block_id physical_block_id)

unfoldable pub sync_l2_to_l1 : ℤ → Exec Runtime (Unit {0})
sync_l2_to_l1 physical_block_id = do
  dst_l1 ← acquire_page Pool.l1_pool physical_block_id ptr
  src_l2 ← gets (λ rt. raw_page rt.l2_pool physical_block_id)
  modify (copy_or_zero Pool.l2_pool Pool.l1_pool src_l2 dst_l1)
  modify (directory λ d. BlockDirectory.set_l1_frame_id d physical_block_id physical_block_id)
