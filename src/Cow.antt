-- ===== src/Cow.antt =====
-- Copy on write, src/mmu_api.cpp: CloneBlockDataForCow.
use mmu.Prelude.{ℤ, Bool, true, false, not, ◌&&◌, ◌||◌, Option, none, some, if◌then◌else◌}
use mmu.Types.{Tier, l0, l1, l2, ptr, PagePtr, invalid_argument}
use mmu.Exec.{Exec, gets, fail_if, modify, ◌>>=◌, ◌>>◌}
use mmu.BlockManager
use mmu.BlockDirectory
use mmu.ChunkPool.{raw_page, release_page}
use mmu.Runtime.{Runtime, Pool, directory, block_meta_for}
use mmu.Paging.{acquire_page, copy_or_zero}
use mmu.Residency.{is_resident}

abbrev pub is_none : {A : Type 0} → Option A → Bool
is_none none = true
is_none (some a) = false

abbrev pub is_l1 : Tier → Bool
is_l1 l0 = false
is_l1 l1 = true
is_l1 l2 = false

-- `src_ptr`, with the pool that it points into.
abbrev pub Source : Type 0
Source = Pool × Option PagePtr

abbrev pub or_else : Source → Source → Source
or_else (p, none) s = s
or_else (p, some q) s = (p, some q)

unfoldable pub cow_source : ℤ → Tier → Runtime → Source
cow_source src src_tier rt =
    or_else
      (if is_l1 src_tier && is_resident (block_meta_for src rt)
        then (Pool.l1_pool, raw_page rt.l1_pool src)
        else (Pool.l1_pool, none))
      (or_else (Pool.l2_pool, raw_page rt.l2_pool src) (Pool.l1_pool, raw_page rt.l1_pool src))

-- The copy into the L1 page of a destination that is resident.
abbrev pub copy_to_l1 : ℤ → PagePtr → Exec Runtime (Unit {0})
copy_to_l1 dst dst_l2 = do
  dst_l1 ← acquire_page Pool.l1_pool dst ptr
  modify (copy_or_zero Pool.l2_pool Pool.l1_pool (some dst_l2) dst_l1)

unfoldable pub clone_block_data_for_cow : ℤ → Tier → ℤ → Exec Runtime (Unit {0})
unfolding cow_source
clone_block_data_for_cow src src_tier dst = do
  invalid ← gets (λ rt.
      not (BlockManager.is_valid rt.l1_allocator src)
      || not (BlockManager.is_valid rt.l1_allocator dst))
  fail_if invalid invalid_argument
  missing ← gets (λ rt. is_none (block_meta_for src rt) || is_none (block_meta_for dst rt))
  fail_if missing invalid_argument
  source ← gets (cow_source src src_tier)
  dst_l2 ← acquire_page Pool.l2_pool dst ptr
  modify (copy_or_zero source.0 Pool.l2_pool source.1 dst_l2)
  modify (directory λ d. BlockDirectory.set_has_l2_backing d dst true)
  modify (directory λ d. BlockDirectory.set_l2_slot_id d dst dst)
  dst_meta ← gets (block_meta_for dst)
  if is_resident dst_meta
      then copy_to_l1 dst dst_l2
      else modify (λ rt. record rt { l1_pool = release_page rt.l1_pool dst })
