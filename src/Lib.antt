-- ===== src/Lib.antt =====
-- The verification library of mmu, a paged memory unit for key-value caches in C++.
--
-- The program hands out fixed-size physical blocks to contexts. A context maps logical blocks to
-- physical ones; a fork shares them, and a write to a shared block replaces it (copy on write).
-- The bytes of a block stand in a page of the L1 pool, a page of the L2 pool, or nowhere while they
-- are all 0. At most `l1_resident_block_limit` blocks are resident in L1; a further one evicts the
-- least recently used block that is not pinned.
--
-- Which module models which part:
--   Types          include/dsf_mmu/mmu_types.h. `Result` is a status with the output arguments:
--                  `ok` is MMU_STATUS_OK.
--   Config         include/dsf_mmu/mmu_config.h; ResolveAutoResidentLimit and the defaults of
--                  mmu_init in src/mmu_api.cpp. `Host` stands for sysconf, new and the addresses of
--                  new contexts.
--   BlockManager   src/core/block_manager.{h,cpp}
--   BlockDirectory src/core/block_directory.{h,cpp}
--   PageTable      src/core/page_table.{h,cpp}
--   Context        src/core/context.{h,cpp}. A method runs on a `Session`, the shared block manager
--                  beside the context.
--   ChunkPool      struct ChunkPool of src/mmu_api.cpp, ReleasePage, RawPage, CopyOrZero
--   Runtime        struct mmu_runtime_t, TouchBlock, FindContext
--   Paging         AllocateChunk, AcquirePage, SyncL1ToL2, SyncL2ToL1
--   Residency      ResetBlockData, ReclaimUnusedResidentBlocks, PickEvictionCandidate,
--                  MoveBlockToL2, EnsureResidentInL1, RegisterFreshBlock
--   Cow            CloneBlockDataForCow
--   Api            the entry points; Api.Mapping has map and unmap, Api.Queries what only reads,
--                  Api.TestApi src/internal/mmu_test_api.h
--   Frame, Accounts  lemmas over several parts: what a call leaves alone, and the references that
--                  contexts hold
--   Data           lemmas over several parts: which pages the blocks own, the bytes of a block
--                  wherever they stand, as the abstract view of the two pools, and in Data.Housed
--                  where the pages of a block may be, through every call
--   History        the calls that a client makes, in any order, with its writes to pages of L1 in
--                  between
--   Settled        lemmas over several parts: the invariant of a runtime between two calls, which
--                  the handlers break and restore
--   Prelude, Exec  shared names, lists under native indices, C's int, calls that may fail
--   Tests          runs on small inputs, and each result at a concrete input
--
-- How state and operations correspond: an object is a record, a method is a function that returns
-- the new record, and a call that returns a status is an `Exec`, which brings the state back beside
-- an error too. The mutex is held for a whole call, so a call is one step. A null handle is `none`,
-- a null output argument is `null`. Vectors are lists; where only the back of a vector is used
-- (free lists) the head of the list is the back. A `uint8_t*` into a pool is a chunk and a block of
-- that chunk, since every access of the program starts at a block and has block_size_bytes bytes. A
-- write of the client's may be longer; then it goes on into the blocks behind it in the chunk.
-- Counters of 32 and 64 bits wrap; reference counts are unbounded, as 2^31 references to one block
-- would be needed to overflow an int.
--
-- Fuel: only the loop of EnsureResidentInL1 takes fuel, one more than the number of blocks. Each
-- round makes a resident block non-resident, and there are at most as many as blocks.
--
-- Not modelled: failures of the standard containers to allocate (bad_alloc), and block counts and
-- page tables of more than INT_MAX entries, whose size the program casts to int (is_valid of the
-- block manager, get and set of the page table); what stands in the output array of
-- mmu_map_logical_blocks after an error; the example program, the tests, and the vendored libraries, which the program does not
-- call.
pub mod Accounts
pub mod Api
pub mod BlockDirectory
pub mod BlockManager
pub mod ChunkPool
pub mod Config
pub mod Context
pub mod Cow
pub mod Data
pub mod Exec
pub mod Frame
pub mod History
pub mod PageTable
pub mod Paging
pub mod Prelude
pub mod Residency
pub mod Runtime
pub mod Settled
pub mod Tests
pub mod Types
