-- ===== src/Api/Mapping.antt =====
-- Mapping and unmapping of blocks, src/mmu_api.cpp.
pub mod Batch
use mmu.Prelude.{
  ℕ, ◌/◌, ◌%◌, ℤ, ◌==ℤ◌, Bool, true, false, not, ◌||◌, List, [], ◌∷◌, ◌++◌, Option, none, some, ltb,
  ◌==◌, if◌then◌else◌,
}
use mmu.Types.{
  OutPtr, is_null, ptr, Result, ok, err, stuck, Error, invalid_argument, internal, bad_handle,
  PhysicalRoute, MappedBlock,
}
use mmu.Exec.{Exec, pure, fail, gets, or_fail, fail_if, modify, ◌>>=◌, ◌>>◌}
use mmu.BlockManager
use mmu.BlockDirectory
use mmu.BlockDirectory.{BlockDirectory, BlockMeta}
use mmu.Runtime.{Runtime, Pool, directory, block_meta_for, touch_block, find_context}
use mmu.Paging.{acquire_page, sync_l1_to_l2}
use mmu.Residency.{ensure_resident_in_l1, is_allocated, is_resident}
use mmu.Api.{Handle, Call, on_runtime, to_int, resolve_routing, prepare_block_for_write}

-- `map_flags & allowed` is the number's two low bits, and `map_flags & ~allowed` the others.
unfoldable pub validate_map_flags : ℕ → Bool
validate_map_flags map_flags =
    if map_flags % 4 == 0 then false else if not (map_flags / 4 == 0) then false else true

-- `(map_flags & MMU_MAP_WRITE) != 0`
abbrev pub has_write : ℕ → Bool
has_write map_flags = not (map_flags / 2 % 2 == 0)

-- `if (!f()) return e;` for a call on the directory.
abbrev pub direct : (BlockDirectory → Option BlockDirectory) → Error → Exec Runtime (Unit {0})
direct f e rt = elim (f rt.block_directory) [
  | none ↦ (err e, rt)
  | some d ↦ (ok tt, record rt { block_directory = d })
]

abbrev prepare_if_write : ℕ → ℕ → ℕ → Exec Runtime (Unit {0})
prepare_if_write ctx logical_block map_flags =
    if has_write map_flags
    then (prepare_block_for_write ctx logical_block >>= λ _. pure tt)
    else pure tt

-- From the routing on: the block comes to L1, is pinned and handed out.
unfoldable pub map_routed : ℕ → ℕ → PhysicalRoute → Exec Runtime MappedBlock
map_routed logical_block map_flags route = do
  ensure_resident_in_l1 route.physical_block_id
  l1_page ← acquire_page Pool.l1_pool route.physical_block_id ptr
  direct (λ d. BlockDirectory.increment_pin_count d route.physical_block_id) internal
  modify (touch_block route.physical_block_id)
  size_bytes ← gets (λ rt. rt.config.block_size_bytes)
  pure (record {
    host_ptr = l1_page;
    size_bytes = size_bytes;
    physical_block_id = route.physical_block_id;
    logical_block_id = logical_block;
    map_flags = map_flags;
  })

unfoldable pub map_logical_block : ℕ → ℕ → ℕ → Exec Runtime MappedBlock
unfolding map_routed
map_logical_block ctx logical_block map_flags = do
  context ← gets (find_context ctx)
  or_fail context bad_handle
  or_fail (to_int logical_block) invalid_argument
  prepare_if_write ctx logical_block map_flags
  route ← resolve_routing ctx logical_block ptr
  map_routed logical_block map_flags route

unfoldable pub mmu_map_logical_block : ℕ → ℕ → ℕ → OutPtr → Call MappedBlock
unfolding map_logical_block
mmu_map_logical_block ctx logical_block map_flags out_mapped_block = do
  fail_if (is_null out_mapped_block || not (validate_map_flags map_flags)) invalid_argument
  on_runtime bad_handle (map_logical_block ctx logical_block map_flags)

-- The write-through of a block that was mapped for writing.
abbrev sync_if_resident : ℤ → Exec Runtime (Unit {0})
sync_if_resident pbid = do
  modify (directory λ d. BlockDirectory.set_dirty d pbid true)
  meta ← gets (block_meta_for pbid)
  if is_resident meta
      then (do sync_l1_to_l2 pbid; modify (directory λ d. BlockDirectory.set_dirty d pbid false))
      else pure tt

abbrev pin_count_of : Option BlockMeta → ℕ
pin_count_of none = 0
pin_count_of (some meta) = meta.pin_count

-- From the routing on: the pin goes, and what was written goes to L2.
unfoldable pub unmap_routed : ℤ → ℕ → Exec Runtime (Unit {0})
unmap_routed pbid map_flags = do
  meta ← gets (block_meta_for pbid)
  fail_if (not (is_allocated meta)) internal
  if ltb 0 (pin_count_of meta)
      then direct (λ d. BlockDirectory.decrement_pin_count d pbid) internal
      else pure tt
  if has_write map_flags then sync_if_resident pbid else pure tt
  modify (touch_block pbid)

unfoldable pub unmap_logical_block : ℕ → MappedBlock → Exec Runtime (Unit {0})
unfolding unmap_routed
unmap_logical_block ctx mapped_block = do
  context ← gets (find_context ctx)
  or_fail context bad_handle
  valid ← gets (λ rt. BlockManager.is_valid rt.l1_allocator mapped_block.physical_block_id)
  fail_if (not valid) invalid_argument
  route ← resolve_routing ctx mapped_block.logical_block_id ptr
  fail_if (not (route.physical_block_id ==ℤ mapped_block.physical_block_id)) bad_handle
  unmap_routed mapped_block.physical_block_id mapped_block.map_flags

-- A null `mapped_block` is `none`.
unfoldable pub mmu_unmap_logical_block : ℕ → Option MappedBlock → Call (Unit {0})
unfolding unmap_logical_block
mmu_unmap_logical_block ctx none = fail invalid_argument
mmu_unmap_logical_block ctx (some mapped_block) =
    on_runtime bad_handle (unmap_logical_block ctx mapped_block)

-- A loop that ignores what each unmapping returns.
unfoldable pub unmap_all : ℕ → List MappedBlock → Handle → Handle
unmap_all ctx [] mmu = mmu
unmap_all ctx (b ∷ bs) mmu = unmap_all ctx bs (mmu_unmap_logical_block ctx (some b) mmu).1

abbrev pub map_next :
    (List MappedBlock → Handle → Result (List MappedBlock) × Handle)
    → ℕ
    → List MappedBlock
    → Result MappedBlock × Handle
    → Result (List MappedBlock) × Handle
map_next rest ctx mapped (ok b, mmu) = rest (mapped ++ b ∷ []) mmu
map_next rest ctx mapped (err e, mmu) = (err e, unmap_all ctx mapped mmu)
map_next rest ctx mapped (stuck, mmu) = (stuck, mmu)

-- The loop of the batch, with the blocks mapped so far; on a failure it unmaps those.
unfoldable pub map_each : ℕ → ℕ → List ℕ → List MappedBlock → Call (List MappedBlock)
map_each ctx map_flags [] mapped mmu = (ok mapped, mmu)
map_each ctx map_flags (lb ∷ lbs) mapped mmu =
    map_next (map_each ctx map_flags lbs) ctx mapped
      (mmu_map_logical_block ctx lb map_flags ptr mmu)

abbrev some_null : List ℕ → OutPtr → OutPtr → Bool
some_null [] p q = false
some_null (x ∷ xs) p q = is_null p || is_null q

abbrev pub unless_null : {A : Type 0} → Error → Call A → Call A
unless_null e m none = (err e, none)
unless_null e m (some rt) = m (some rt)

-- The two arrays have `num_blocks` entries each, those of the list, unless they are null. The entries
-- that the source has written to the output array before it returns an error are not returned.
unfoldable pub mmu_map_logical_blocks : ℕ → OutPtr → List ℕ → ℕ → OutPtr → Call (List MappedBlock)
unfolding map_each
mmu_map_logical_blocks ctx array logical_blocks map_flags out_mapped_blocks = do
  fail_if (some_null logical_blocks array out_mapped_blocks) invalid_argument
  unless_null bad_handle (map_each ctx map_flags logical_blocks [])

abbrev pub first_error : Result (Unit {0}) → Result (Unit {0}) → Result (Unit {0})
first_error (ok u) r = r
first_error (err e) r = err e
first_error stuck r = stuck

unfoldable pub unmap_each : ℕ → List MappedBlock → Result (Unit {0}) → Call (Unit {0})
unmap_each ctx [] first mmu = (first, mmu)
unmap_each ctx (b ∷ bs) first mmu =
    let (r, mmu') = mmu_unmap_logical_block ctx (some b) mmu in
    unmap_each ctx bs (first_error first r) mmu'

-- A null array is `none`; `num_blocks` counts as 0 where the list is empty.
unfoldable pub mmu_unmap_logical_blocks : ℕ → Option (List MappedBlock) → Call (Unit {0})
unfolding unmap_each
mmu_unmap_logical_blocks ctx none = fail invalid_argument
mmu_unmap_logical_blocks ctx (some mapped_blocks) =
    unless_null bad_handle (unmap_each ctx mapped_blocks (ok tt))
