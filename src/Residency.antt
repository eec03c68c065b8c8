-- ===== src/Residency.antt =====
-- Which blocks are resident in L1, src/mmu_api.cpp: reset, reclaim, the choice of a victim,
-- eviction, promotion, and the registration of fresh blocks.
pub mod Victim
pub mod Flags
pub mod Calm
pub mod Eviction
pub mod Room
pub mod Reclaim
pub mod Vacant
pub mod Promotion
pub mod Bounds
pub mod Fresh
use mmu.Prelude.{
  ℕ, zero, suc, ◌+◌, ◌-◌, ℤ, pos, negsuc, ◌==ℤ◌, Bool, true, false, not, ◌&&◌, ◌||◌, Option, none,
  some, length, ltb, leb, ◌==◌, if◌then◌else◌, inc32, u64_mod,
}
use mmu.Types.{Tier, l1, l2, Result, ok, err, stuck, Error, invalid_argument, out_of_memory}
use mmu.Exec.{Exec, pure, fail, gets, fail_if, modify, ◌>>=◌, ◌>>◌}
use mmu.BlockManager
use mmu.BlockDirectory
use mmu.BlockDirectory.{BlockMeta, invalid_id}
use mmu.ChunkPool.{release_page}
use mmu.Runtime.{Runtime, directory, write_meta, block_meta_for, touch_block}
use mmu.Paging.{sync_l1_to_l2, sync_l2_to_l1}

-- `if (resident_count > 0) --resident_count;`
abbrev pub one_fewer : Runtime → Runtime
one_fewer rt = record rt {
  resident_count = if ltb 0 rt.resident_count then rt.resident_count - 1 else 0;
}

abbrev pub one_more : Runtime → Runtime
one_more rt = record rt { resident_count = inc32 rt.resident_count }

abbrev pub cleared : BlockMeta → BlockMeta
cleared meta = record meta {
  resident_in_l1 = false;
  dirty = false;
  pin_count = 0;
  last_access_epoch = 0;
  l1_frame_id = invalid_id;
  l2_slot_id = invalid_id;
  has_l2_backing = false;
}

unfoldable pub reset_block_data : ℤ → Runtime → Runtime
reset_block_data physical_block_id rt = write_meta physical_block_id cleared (record rt {
  l1_pool = release_page rt.l1_pool physical_block_id;
  l2_pool = release_page rt.l2_pool physical_block_id;
})

abbrev pub is_resident : Option BlockMeta → Bool
is_resident none = false
is_resident (some meta) = meta.resident_in_l1

abbrev pub is_allocated : Option BlockMeta → Bool
is_allocated none = false
is_allocated (some meta) = meta.allocated

-- What happens to a block whose last reference is gone: here and in two handlers.
unfoldable pub forget_block : ℤ → Runtime → Runtime
forget_block pbid rt =
    let rt' = if is_resident (block_meta_for pbid rt) then one_fewer rt else rt in
    directory (λ d. some (BlockDirectory.reset d pbid)) (reset_block_data pbid rt')

unfoldable pub reclaim_block : ℤ → Runtime → Runtime
reclaim_block pbid rt =
    if BlockManager.ref_count rt.l1_allocator pbid ==ℤ pos 0 then forget_block pbid rt else rt

-- The loop of ReclaimUnusedResidentBlocks over the blocks from `i` on.
unfoldable pub reclaim_from : ℕ → ℕ → Runtime → Runtime
reclaim_from i zero rt = rt
reclaim_from i (suc n) rt = reclaim_from (suc i) n (reclaim_block (pos i) rt)

unfoldable pub reclaim_unused_resident_blocks : Runtime → Runtime
reclaim_unused_resident_blocks rt = reclaim_from 0 rt.config.l1_block_count rt

-- `continue` or not, for block `i`.
abbrev pub is_candidate : ℤ → ℕ → Option BlockMeta → Bool
is_candidate protected_pbid i none = false
is_candidate protected_pbid i (some meta) =
    meta.allocated && meta.resident_in_l1 && not (pos i ==ℤ protected_pbid) && meta.pin_count == 0

abbrev pub epoch_of : Option BlockMeta → ℕ
epoch_of none = 0
epoch_of (some meta) = meta.last_access_epoch

-- The loop over the blocks from `i` on, with the best victim so far.
unfoldable pub pick_from : Runtime → ℤ → ℕ → ℕ → ℤ → ℕ → ℤ
pick_from rt protected_pbid i zero victim oldest_epoch = victim
pick_from rt protected_pbid i (suc n) victim oldest_epoch =
    let meta = block_meta_for (pos i) rt in
    let better = is_candidate protected_pbid i meta && ltb (epoch_of meta) oldest_epoch in
    pick_from rt protected_pbid (suc i) n (if better then pos i else victim)
      (if better then epoch_of meta else oldest_epoch)

unfoldable pub pick_eviction_candidate : Runtime → ℤ → ℤ
pick_eviction_candidate rt protected_pbid =
    pick_from rt protected_pbid 0 rt.config.l1_block_count (negsuc 0) (u64_mod - 1)

-- The resident case of MoveBlockToL2.
abbrev write_back : ℤ → Exec Runtime (Unit {0})
write_back pbid = do
  sync_l1_to_l2 pbid
  modify (write_meta pbid λ meta. record meta { resident_in_l1 = false; l1_frame_id = invalid_id })
  modify one_fewer

unfoldable pub move_block_to_l2 : ℤ → Exec Runtime (Unit {0})
move_block_to_l2 physical_block_id = do
  valid ← gets (λ rt. BlockManager.is_valid rt.l1_allocator physical_block_id)
  fail_if (not valid) invalid_argument
  meta ← gets (block_meta_for physical_block_id)
  fail_if (not (is_allocated meta)) invalid_argument
  if is_resident meta then write_back physical_block_id else pure tt
  modify (λ rt. record rt { l1_pool = release_page rt.l1_pool physical_block_id })
  modify (write_meta physical_block_id λ meta. record meta { tier = l2 })

abbrev is_negative : ℤ → Bool
is_negative (pos n) = false
is_negative (negsuc n) = true

unfoldable pub evict_one : ℤ → Exec Runtime (Unit {0})
evict_one pbid = do
  victim ← gets (λ rt. pick_eviction_candidate rt pbid)
  fail_if (is_negative victim) out_of_memory
  move_block_to_l2 victim

-- One test of the `while`, with what follows a round.
unfoldable pub again : Exec Runtime (Unit {0}) → ℤ → Exec Runtime (Unit {0})
again rest pbid = do
  full ← gets (λ rt. leb rt.resident_limit rt.resident_count)
  if full then (evict_one pbid >> rest) else pure tt

-- `while (resident_count >= resident_limit)`. Each round makes one more block non-resident.
unfoldable pub evict_while_full : ℕ → ℤ → Exec Runtime (Unit {0})
evict_while_full zero pbid rt = (stuck, rt)
evict_while_full (suc fuel) pbid rt = again (evict_while_full fuel pbid) pbid rt

unfoldable pub promote : ℤ → Exec Runtime (Unit {0})
promote pbid = do
  blocks ← gets (λ rt. length rt.block_directory.metas)
  evict_while_full (suc blocks) pbid
  sync_l2_to_l1 pbid
  modify
      (write_meta pbid λ meta. record meta { resident_in_l1 = true; l1_frame_id = pbid; tier = l1 })
  modify one_more
  modify (touch_block pbid)

unfoldable pub keep_resident : ℤ → Exec Runtime (Unit {0})
keep_resident pbid = do
  modify (touch_block pbid)
  modify (write_meta pbid λ meta. record meta { tier = l1 })

unfoldable pub ensure_resident_in_l1 : ℤ → Exec Runtime (Unit {0})
ensure_resident_in_l1 physical_block_id = do
  valid ← gets (λ rt. BlockManager.is_valid rt.l1_allocator physical_block_id)
  fail_if (not valid) invalid_argument
  modify reclaim_unused_resident_blocks
  meta ← gets (block_meta_for physical_block_id)
  fail_if (not (is_allocated meta)) invalid_argument
  if is_resident meta then keep_resident physical_block_id else promote physical_block_id

-- `if (!meta->resident_in_l1) { ... }` and the two calls behind it.
unfoldable pub admit_fresh : ℤ → Runtime → Runtime
admit_fresh pbid rt =
    let rt' =
      if is_resident (block_meta_for pbid rt)
      then rt
      else one_more (
          write_meta pbid (λ meta. record meta { resident_in_l1 = true; l1_frame_id = pbid }) rt) in
    touch_block pbid (write_meta pbid (λ meta. record meta { tier = l1 }) rt')

unfoldable pub park_fresh : ℤ → Runtime → Runtime
park_fresh pbid rt =
    write_meta pbid
      (λ meta. record meta {
        resident_in_l1 = false;
        l1_frame_id = invalid_id;
        last_access_epoch = 0;
        tier = l2;
      })
      rt

abbrev pub place_fresh : Option BlockMeta → ℤ → Runtime → Runtime
place_fresh none pbid rt = rt
place_fresh (some meta) pbid rt =
    if ltb rt.resident_count rt.resident_limit then admit_fresh pbid rt else park_fresh pbid rt

unfoldable pub register_fresh_block : ℤ → Runtime → Runtime
register_fresh_block pbid rt =
    let rt' =
      reset_block_data pbid (directory (λ d. BlockDirectory.initialize_fresh_block d pbid) rt) in
    place_fresh (block_meta_for pbid rt') pbid rt'
