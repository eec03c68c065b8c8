-- ===== src/Tests/Runtimes.antt =====
-- A runtime of three blocks, of which one at most is resident in L1.
use mmu.Prelude.{
  ℕ, ◌+◌, pos, ◌≡◌, refl, true, List, [], ◌∷◌, Option, none, some, arith, length, ltb, ◌<◌, ◌≤◌,
  if◌then◌else◌,
}
use mmu.Types.{ptr, MappedBlock, Result, ok, err, stuck, Error}
use mmu.Exec.{◌>>=◌}
use mmu.Config.{Config, Host, default_config, resolve}
use mmu.BlockManager
use mmu.BlockDirectory
use mmu.PageTable
use mmu.Context
use mmu.ChunkPool
use mmu.ChunkPool.{write_page}
use mmu.Runtime.{Runtime, new_runtime, in_context, find_context, touch_block}
use mmu.Paging
use mmu.Residency
use mmu.Api
use mmu.Api.{Handle, Call, mmu_init, create_context, allocate_blocks, fork_context}
use mmu.Api.Mapping
use mmu.Api.Mapping.Batch.{unmap_results, first_failure, mmu_unmap_logical_blocks-first_failure}
use mmu.Api.Queries.{mmu_get_ref_count}
use mmu.Accounts.{total, new_runtime-Accounts}
use mmu.History.{Action, perform}
use mmu.Accounts.History.{AccountsAt, perform-AccountsAt}
use mmu.Accounts.RefCounts.{Step, Reach, mmu_get_ref_count-total}

abbrev pub above : List ℕ → ℕ
above [] = 1
above (x ∷ xs) = if ltb x (above xs) then above xs else x + 1

-- Every request is met, and a new context lies above the live ones.
abbrev pub roomy : Host
roomy = record {
  page_count = pos 100;
  page_size = pos 4096;
  new_succeeds = λ n bytes. true;
  new_handle = above;
}

abbrev pub small : Config
small = record default_config {
  l1_block_count = 3;
  l1_resident_block_limit = 1;
  block_size_bytes = 4;
  chunk_block_count = 2;
}

abbrev pub booted : Runtime
booted = new_runtime roomy (resolve roomy small)

abbrev status : {A : Type 0} → Result A × Handle → Option Error
status (ok a, mmu) = none
status (err e, mmu) = some e
status (stuck, mmu) = none

-- The client writes 7 to byte 0 of a mapped block.
abbrev poke : Result MappedBlock × Handle → Handle
poke (ok b, some rt) = some (record rt { l1_pool = write_page rt.l1_pool b.host_ptr 1 (λ _. 7) })
poke (r, mmu) = mmu

abbrev peek : Result MappedBlock × Handle → ℕ
peek (ok b, some rt) = rt.l1_pool.memory b.host_ptr 0
peek (r, mmu) = 0

abbrev unmapped : ℕ → Result MappedBlock × Handle → Handle
unmapped ctx (ok b, mmu) = (Mapping.mmu_unmap_logical_block ctx (some b) mmu).1
unmapped ctx (r, mmu) = mmu

abbrev pub two_allocated : Handle
two_allocated = perform (Action.allocate 1 2) (perform Action.create (some booted))

-- Block 0 is mapped, written and unmapped; block 1 is mapped, which evicts it; then it is read.
abbrev written : Handle
written =
    let m = Mapping.mmu_map_logical_block 1 0 3 ptr two_allocated in
    let mmu = poke m in unmapped 1 (m.0, mmu)

abbrev swapped_out : Handle
swapped_out = unmapped 1 (Mapping.mmu_map_logical_block 1 1 1 ptr written)

read_back : ℕ
read_back = peek (Mapping.mmu_map_logical_block 1 0 1 ptr swapped_out)

-- The list of all code, for runs.
unfoldable pub code : ℕ
unfolding new_runtime mmu_init Api.create_context resolve find_context in_context touch_block
    BlockManager.init BlockManager.allocate BlockManager.ref_count BlockManager.is_valid
    BlockDirectory.init BlockDirectory.get BlockDirectory.mutable_get
    BlockDirectory.initialize_fresh_block BlockDirectory.reset BlockDirectory.snapshot
    BlockDirectory.set_last_access_epoch BlockDirectory.set_has_l2_backing
    BlockDirectory.set_l2_slot_id BlockDirectory.set_l1_frame_id BlockDirectory.set_dirty
    BlockDirectory.increment_pin_count BlockDirectory.decrement_pin_count PageTable.append
    PageTable.get PageTable.set Context.allocate_blocks Context.allocate_rounds
    Context.resolve_routing Context.prepare_block_for_write ChunkPool.init ChunkPool.owner
    ChunkPool.raw_page ChunkPool.bytes_or_zero ChunkPool.release_page Paging.grow
    Paging.allocate_chunk Paging.refill Paging.pop_free Paging.commit_page Paging.acquire_page
    Paging.sync_l1_to_l2 Paging.sync_l2_to_l1 Residency.reset_block_data Residency.forget_block
    Residency.reclaim_block Residency.reclaim_from Residency.reclaim_unused_resident_blocks
    Residency.pick_from Residency.pick_eviction_candidate Residency.move_block_to_l2
    Residency.evict_one Residency.again Residency.evict_while_full Residency.promote
    Residency.keep_resident Residency.ensure_resident_in_l1 Residency.admit_fresh
    Residency.park_fresh Residency.register_fresh_block Api.mmu_create_context Api.allocate_blocks
    Api.mmu_allocate_blocks Api.register_all Api.resolve_routing Api.prepare_block_for_write
    Mapping.map_routed Mapping.map_logical_block Mapping.mmu_map_logical_block
    Mapping.validate_map_flags Mapping.unmap_routed Mapping.unmap_logical_block
    Mapping.mmu_unmap_logical_block ◌>>=◌
code = 0

read_back_runs : read_back ≡ 7
unfolding code read_back
read_back_runs = refl

unfoldable pub created : Runtime
created = (create_context booted).1

unfoldable pub allocated : Runtime
allocated = (allocate_blocks 1 2 created).1

created_free : 2 ≤ length created.l1_allocator.free_list
unfolding code created
created_free = omega arith

created-Reach : Reach (some booted) (some created)
unfolding created Api.mmu_create_context ◌>>=◌
created-Reach = Reach.next Reach.start (Step.call Action.create tt refl)

allocated-Reach : Reach (some booted) (some allocated)
unfolding allocated Api.mmu_allocate_blocks
allocated-Reach = Reach.next created-Reach (Step.call (Action.allocate 1 2) created_free refl)

allocated_bound : 1 < length allocated.l1_allocator.ref_counts
unfolding code created allocated
allocated_bound = omega arith

pub boots : mmu_init roomy (some small) ptr ≡ ok booted
unfolding mmu_init
boots = refl

created-Accounts : AccountsAt (some created)
unfolding created Api.mmu_create_context ◌>>=◌
created-Accounts =
    perform-AccountsAt Action.create (some booted) tt
      (new_runtime-Accounts roomy (resolve roomy small))

-- Both blocks of the allocation are counted.
perform-AccountsAt_example : AccountsAt (perform (Action.allocate 1 2) (some created))
perform-AccountsAt_example =
    perform-AccountsAt (Action.allocate 1 2) (some created) created_free created-Accounts

mmu_get_ref_count-total_example :
    mmu_get_ref_count (pos 1) (some allocated) ≡ pos (total 1 allocated.contexts)
mmu_get_ref_count-total_example =
    mmu_get_ref_count-total roomy (some small) ptr booted allocated 1 boots allocated-Reach
      allocated_bound

-- Two requests for logical block 0, of which the first names a physical block that is not its own.
abbrev two_blocks : List MappedBlock
two_blocks =
    record {
      host_ptr = record { chunk = 0; block = 0 };
      size_bytes = 4;
      physical_block_id = pos 2;
      logical_block_id = 0;
      map_flags = 1;
    }
    ∷ record {
      host_ptr = record { chunk = 0; block = 0 };
      size_bytes = 4;
      physical_block_id = pos 0;
      logical_block_id = 0;
      map_flags = 1;
    }
    ∷ []

mmu_unmap_logical_blocks-first_failure_example :
    Mapping.mmu_unmap_logical_blocks 1 (some two_blocks) (some allocated) ≡ (
      first_failure (unmap_results 1 two_blocks (some allocated)),
      Mapping.unmap_all 1 two_blocks (some allocated),
    )
mmu_unmap_logical_blocks-first_failure_example =
    mmu_unmap_logical_blocks-first_failure 1 two_blocks allocated
