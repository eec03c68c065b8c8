-- ===== src/Api/Queries.antt =====
-- The calls of src/mmu_api.cpp that only read: the batch of routes and the counters.
pub mod Batch
use mmu.Prelude.{ℕ, ℤ, negsuc, Bool, false, ◌||◌, List, [], ◌∷◌, Option, none, some, if◌then◌else◌}
use mmu.Types.{
  OutPtr, is_null, ptr, Result, ok, err, stuck, invalid_argument, bad_handle, PhysicalRoute,
}
use mmu.BlockManager
use mmu.BlockDirectory.{BlockDirectory}
use mmu.Context
use mmu.Context.{Context}
use mmu.Runtime.{find_context}
use mmu.Api.{Handle, to_int}

-- The status, with what the loop has written to `out_routes`.
abbrev pub Routes : Type 0
Routes = Result (Unit {0}) × List PhysicalRoute

resolve_one : Context → BlockDirectory → Option ℤ → Result PhysicalRoute
resolve_one c d none = err invalid_argument
resolve_one c d (some lvid) = Context.resolve_routing c d lvid ptr

abbrev pub then_routes : Result PhysicalRoute → Routes → Routes
then_routes (ok r) (status, rs) = (status, r ∷ rs)
then_routes (err e) rest = (err e, [])
then_routes stuck rest = (stuck, [])

unfoldable pub resolve_each : Context → BlockDirectory → List ℕ → Routes
unfolding resolve_one
resolve_each c d [] = (ok tt, [])
resolve_each c d (lb ∷ lbs) = then_routes (resolve_one c d (to_int lb)) (resolve_each c d lbs)

abbrev some_null : List ℕ → OutPtr → OutPtr → Bool
some_null [] p q = false
some_null (x ∷ xs) p q = is_null p || is_null q

batch_found : Option Context → BlockDirectory → OutPtr → List ℕ → OutPtr → Routes
batch_found none d array logical_blocks out_routes = (err bad_handle, [])
batch_found (some c) d array logical_blocks out_routes =
    if some_null logical_blocks array out_routes
    then (err invalid_argument, [])
    else resolve_each c d logical_blocks

unfoldable pub mmu_resolve_routing_batch : ℕ → OutPtr → List ℕ → OutPtr → Handle → Routes
unfolding batch_found resolve_each
mmu_resolve_routing_batch ctx array logical_blocks out_routes none = (err bad_handle, [])
mmu_resolve_routing_batch ctx array logical_blocks out_routes (some rt) =
    batch_found (find_context ctx rt) rt.block_directory array logical_blocks out_routes

unfoldable pub mmu_get_free_block_count : Handle → ℕ
mmu_get_free_block_count none = 0
mmu_get_free_block_count (some rt) = BlockManager.free_blocks rt.l1_allocator

unfoldable pub mmu_get_ref_count : ℤ → Handle → ℤ
mmu_get_ref_count physical_block_id none = negsuc 0
mmu_get_ref_count physical_block_id (some rt) =
    BlockManager.ref_count rt.l1_allocator physical_block_id

count_in : Option Context → ℕ
count_in none = 0
count_in (some c) = Context.allocated_logical_blocks c

unfoldable pub mmu_get_logical_block_count : ℕ → Handle → ℕ
unfolding count_in
mmu_get_logical_block_count ctx none = 0
mmu_get_logical_block_count ctx (some rt) = count_in (find_context ctx rt)
