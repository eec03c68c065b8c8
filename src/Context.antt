-- ===== src/Context.antt =====
-- src/core/context.{h,cpp}: one context's view of the blocks. The block manager is shared by all
-- contexts through a pointer, so a method runs on a `Session`: the manager beside the context.
pub mod Balance
pub mod Fork
pub mod Replacing
pub mod Holding
pub mod Rounds
pub mod Allocation
pub mod Releases
pub mod Spares
pub mod Freeing
use mmu.Prelude.{
  ℕ, zero, suc, ◌+◌, ◌*◌, ℤ, pos, negsuc, index, ◌==ℤ◌, Bool, true, false, not, ◌||◌, List, [], ◌∷◌,
  ◌++◌, Option, none, some, leb, ltb, ◌==◌, if◌then◌else◌,
}
use mmu.Types.{
  Error, invalid_argument, out_of_memory, unallocated, internal, Result, ok, err, OutPtr, null, ptr,
  is_null, PhysicalRoute,
}
use mmu.Exec.{Exec, pure, fail, gets, or_fail, fail_if, modify, or_same, ◌>>=◌, ◌>>◌}
use mmu.BlockManager
use mmu.BlockManager.{BlockManager}
use mmu.BlockDirectory.{BlockDirectory, BlockMeta, invalid_id, snapshot}
use mmu.PageTable
use mmu.PageTable.{PageTable}

pub record Context : Type 0 where
  pub page_table : PageTable
  pub block_size_bytes : ℕ

pub record Session : Type 0 where
  pub manager : BlockManager
  pub context : Context

abbrev pub new_context : ℕ → Context
new_context block_size_bytes = record {
  page_table = PageTable.empty;
  block_size_bytes = block_size_bytes;
}

-- kUnallocatedBlock
abbrev pub unallocated_block : ℤ
unallocated_block = invalid_id

abbrev pub entries_of : Session → List ℤ
entries_of s = s.context.page_table.entries

abbrev pub with_table : Session → PageTable → Session
with_table s t = record s { context = record s.context { page_table = t } }

-- The `for` loop of the rollback, which ignores what `release` returns.
unfoldable pub release_ids : List ℤ → BlockManager → BlockManager
release_ids [] m = m
release_ids (id ∷ ids) m = release_ids ids (or_same m (BlockManager.release m id))

-- The loop of AllocateBlocks, with the rounds left and the ids so far.
unfoldable pub allocate_rounds : ℕ → List ℤ → Exec Session (List ℤ)
unfolding PageTable.append
allocate_rounds zero allocated s = (ok allocated, s)
allocate_rounds (suc n) allocated s = elim (BlockManager.allocate s.manager ptr) [
  | none ↦ (err out_of_memory, record s { manager = release_ids allocated s.manager })
  | some (block_id, m) ↦ allocate_rounds n (allocated ++ block_id ∷ []) (record {
    manager = m;
    context = record s.context { page_table = PageTable.append s.context.page_table block_id };
  })
]

-- What goes to `out_new_block_ids` is the result.
unfoldable pub allocate_blocks : ℤ → Exec Session (List ℤ)
allocate_blocks (negsuc n) = fail invalid_argument
allocate_blocks (pos n) = allocate_rounds n []

-- The entry of a logical block that has a physical block.
abbrev pub lookup_block : ℤ → Exec Session ℤ
lookup_block logical_block = do
  entry ← gets (λ s. PageTable.get s.context.page_table logical_block ptr)
  block_id ← or_fail entry unallocated
  fail_if (block_id ==ℤ unallocated_block) unallocated
  pure block_id

abbrev pub set_entry : ℤ → ℤ → Exec Session (Unit {0})
set_entry logical_block entry = modify λ s.
    with_table s
      (or_same s.context.page_table (PageTable.set s.context.page_table logical_block entry))

-- `if (!block_manager_->f()) return e;`, where `f` changes the manager.
abbrev pub manage : (BlockManager → Option BlockManager) → Error → Exec Session (Unit {0})
manage f e s = elim (f s.manager) [ none ↦ (err e, s) | some m ↦ (ok tt, record s { manager = m }) ]

unfoldable pub release_logical_block : ℤ → Exec Session (Unit {0})
release_logical_block logical_block = do
  block_id ← lookup_block logical_block
  manage (λ m. BlockManager.release m block_id) internal
  set_entry logical_block unallocated_block

abbrev route_to : ℤ → ℕ → Option BlockMeta → Result PhysicalRoute
route_to block_id block_size_bytes none = err internal
route_to block_id block_size_bytes (some meta) =
    if not meta.allocated
    then err internal
    else ok (record {
      tier = meta.tier;
      physical_block_id = block_id;
      byte_offset = index block_id * block_size_bytes;
    })

route_entry : Context → BlockDirectory → Option ℤ → Result PhysicalRoute
route_entry c d none = err unallocated
route_entry c d (some block_id) =
    if block_id ==ℤ unallocated_block
    then err unallocated
    else route_to block_id c.block_size_bytes (snapshot d block_id ptr)

unfoldable pub resolve_routing : Context → BlockDirectory → ℤ → OutPtr → Result PhysicalRoute
unfolding route_entry
resolve_routing c d logical_block out_route =
    if is_null out_route
    then err invalid_argument
    else route_entry c d (PageTable.get c.page_table logical_block ptr)

-- A second failed release gives the new block back before the error is returned.
abbrev release_or_undo : ℤ → ℤ → Exec Session (Unit {0})
release_or_undo old_id new_id s = elim (BlockManager.release s.manager old_id) [
  | none ↦ (
    err internal,
    record s { manager = or_same s.manager (BlockManager.release s.manager new_id) },
  )
  | some m ↦ (ok tt, record s { manager = m })
]

move_mapping : ℤ → ℤ → ℤ → Exec Session (Unit {0})
move_mapping logical_block current new_block_id = do
  manage (λ m. BlockManager.allocate_specific m new_block_id) out_of_memory
  if current ==ℤ unallocated_block then pure tt else release_or_undo current new_block_id
  set_entry logical_block new_block_id

unfoldable pub update_mapping : ℤ → ℤ → Exec Session (Unit {0})
unfolding move_mapping
update_mapping logical_block new_block_id = do
  entry ← gets (λ s. PageTable.get s.context.page_table logical_block ptr)
  current ← or_fail entry unallocated
  valid ← gets (λ s. BlockManager.is_valid s.manager new_block_id)
  fail_if (not valid) invalid_argument
  if current ==ℤ new_block_id then pure tt else move_mapping logical_block current new_block_id

-- The shared case of PrepareBlockForWrite: a new block takes the place of the old one.
replace_block : ℤ → ℤ → Exec Session ℤ
replace_block logical_block block_id s = elim (BlockManager.allocate s.manager ptr) [
  | none ↦ (err out_of_memory, s)
  | some (new_block_id, m) ↦
      (do
        release_or_undo block_id new_block_id
        set_entry logical_block new_block_id
        pure new_block_id)
        (record s { manager = m })
]

abbrev is_positive : ℤ → Bool
is_positive (pos n) = ltb 0 n
is_positive (negsuc n) = false

unfoldable pub prepare_block_for_write : ℤ → OutPtr → Exec Session ℤ
unfolding replace_block
prepare_block_for_write logical_block out_block_id = do
  fail_if (is_null out_block_id) invalid_argument
  block_id ← lookup_block logical_block
  ref_count ← gets (λ s. BlockManager.ref_count s.manager block_id)
  fail_if (not (is_positive ref_count)) internal
  if ref_count ==ℤ pos 1 then pure block_id else replace_block logical_block block_id

-- The loop of Fork over the entries of the parent; it ignores what `retain` returns.
unfoldable pub retain_ids : List ℤ → BlockManager → BlockManager
retain_ids [] m = m
retain_ids (id ∷ ids) m =
    retain_ids ids (if id ==ℤ unallocated_block then m else or_same m (BlockManager.retain m id))

-- The child, with the manager after it.
unfoldable pub fork : Context → BlockManager → Session
fork c m = record {
  manager = retain_ids c.page_table.entries m;
  context = record {
    page_table = record { entries = c.page_table.entries };
    block_size_bytes = c.block_size_bytes;
  };
}

unfoldable pub count_allocated : List ℤ → ℕ
count_allocated [] = 0
count_allocated (id ∷ ids) = (if id ==ℤ unallocated_block then 0 else 1) + count_allocated ids

unfoldable pub allocated_logical_blocks : Context → ℕ
allocated_logical_blocks c = count_allocated c.page_table.entries

unfoldable pub release_all : List ℤ → BlockManager → BlockManager
release_all [] m = m
release_all (id ∷ ids) m =
    release_all ids (if id ==ℤ unallocated_block then m else or_same m (BlockManager.release m id))

-- ReleaseAllBlocks, the body of the destructor.
unfoldable pub release_all_blocks : Context → BlockManager → BlockManager
release_all_blocks c m = release_all c.page_table.entries m
