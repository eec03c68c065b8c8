-- ===== src/Api/TestApi.antt =====
-- src/internal/mmu_test_api.h, with its functions of src/mmu_api.cpp.
use mmu.Prelude.{
  ℕ, ℤ, pos, negsuc, ◌==ℤ◌, Bool, true, false, ◌||◌, Option, none, some, to_nat, if◌then◌else◌,
}
use mmu.Types.{
  Tier, l0, l1, l2, OutPtr, is_null, ptr, Result, ok, err, invalid_argument, bad_handle,
}
use mmu.Exec.{Exec, pure, fail, gets, or_fail, fail_if, modify, ◌>>=◌, ◌>>◌}
use mmu.BlockDirectory
use mmu.BlockDirectory.{BlockMeta}
use mmu.Context
use mmu.ChunkPool.{count_committed_pages, count_allocated_chunks}
use mmu.Runtime.{Runtime, directory, find_context, in_context}
use mmu.Residency.{ensure_resident_in_l1, move_block_to_l2}
use mmu.Api.{Handle, Call, on_runtime, to_int, resolve_routing, forget_if_unused}

abbrev pub is_negative : ℤ → Bool
is_negative (pos n) = false
is_negative (negsuc n) = true

abbrev pub replace_blocks : ℤ → ℤ → Exec Runtime (Unit {0})
replace_blocks previous new_block = do
  modify (directory λ d. BlockDirectory.initialize_fresh_block d new_block)
  modify (forget_if_unused previous)

abbrev pub move_to_tier : Tier → ℤ → Exec Runtime (Unit {0})
move_to_tier l0 pbid = fail invalid_argument
move_to_tier l1 pbid = ensure_resident_in_l1 pbid
move_to_tier l2 pbid = move_block_to_l2 pbid

unfoldable pub update_mapping : ℕ → ℕ → ℤ → Tier → Exec Runtime (Unit {0})
update_mapping ctx logical_block new_physical_block new_tier = do
  context ← gets (find_context ctx)
  or_fail context bad_handle
  fail_if (is_negative new_physical_block) invalid_argument
  lvid ← or_fail (to_int logical_block) invalid_argument
  previous ← resolve_routing ctx logical_block ptr
  in_context ctx (Context.update_mapping lvid new_physical_block)
  if previous.physical_block_id ==ℤ new_physical_block
      then pure tt
      else replace_blocks previous.physical_block_id new_physical_block
  move_to_tier new_tier new_physical_block

unfoldable pub mmu_test_update_mapping : ℕ → ℕ → ℤ → Tier → Call (Unit {0})
unfolding update_mapping
mmu_test_update_mapping ctx logical_block new_physical_block new_tier =
    on_runtime bad_handle (update_mapping ctx logical_block new_physical_block new_tier)

-- mmu_test_block_metadata_t
pub record BlockMetadata : Type 0 where
  pub allocated : ℕ
  pub tier : Tier
  pub resident_in_l1 : ℕ
  pub dirty : ℕ
  pub pin_count : ℕ
  pub last_access_epoch : ℕ
  pub l1_frame_id : ℤ
  pub l2_slot_id : ℤ
  pub has_l2_backing : ℕ

metadata_of : Option BlockMeta → Result BlockMetadata
metadata_of none = err invalid_argument
metadata_of (some meta) = ok (record {
  allocated = to_nat meta.allocated;
  tier = meta.tier;
  resident_in_l1 = to_nat meta.resident_in_l1;
  dirty = to_nat meta.dirty;
  pin_count = meta.pin_count;
  last_access_epoch = meta.last_access_epoch;
  l1_frame_id = meta.l1_frame_id;
  l2_slot_id = meta.l2_slot_id;
  has_l2_backing = to_nat meta.has_l2_backing;
})

unfoldable pub mmu_test_get_block_metadata : ℤ → OutPtr → Handle → Result BlockMetadata
unfolding metadata_of
mmu_test_get_block_metadata block_id out_metadata none = err bad_handle
mmu_test_get_block_metadata block_id out_metadata (some rt) =
    if is_null out_metadata || is_negative block_id
    then err invalid_argument
    else metadata_of (BlockDirectory.snapshot rt.block_directory block_id ptr)

unfoldable pub mmu_test_get_committed_page_counts : OutPtr → OutPtr → Handle → Result (ℕ × ℕ)
mmu_test_get_committed_page_counts out_l1 out_l2 none = err invalid_argument
mmu_test_get_committed_page_counts out_l1 out_l2 (some rt) =
    if is_null out_l1 || is_null out_l2
    then err invalid_argument
    else ok (count_committed_pages rt.l1_pool, count_committed_pages rt.l2_pool)

unfoldable pub mmu_test_get_committed_chunk_counts : OutPtr → OutPtr → Handle → Result (ℕ × ℕ)
mmu_test_get_committed_chunk_counts out_l1 out_l2 none = err invalid_argument
mmu_test_get_committed_chunk_counts out_l1 out_l2 (some rt) =
    if is_null out_l1 || is_null out_l2
    then err invalid_argument
    else ok (count_allocated_chunks rt.l1_pool, count_allocated_chunks rt.l2_pool)
