-- ===== src/Api.antt =====
-- The entry points of src/mmu_api.cpp that manage contexts and blocks. `api_mutex` is held for the
-- whole of a call, so a call is one step on what the handle points to.
pub mod Mapping
pub mod Queries
pub mod TestApi
mod Handles
use mmu.Prelude.{
  ℕ, ℤ, pos, negsuc, ◌==ℤ◌, Bool, true, false, not, ◌||◌, List, [], ◌∷◌, map, Option, none, some,
  ltb, ◌==◌, if◌then◌else◌,
}
use mmu.Types.{
  OutPtr, is_null, ptr, Result, ok, err, Error, invalid_argument, version_mismatch, bad_handle,
  PhysicalRoute, Tier, l2,
}
use mmu.Exec.{Exec, pure, fail, gets, or_fail, fail_if, modify, ◌>>=◌, ◌>>◌}
use mmu.Config.{Config, Host, sizeof_config, api_version, resolve}
use mmu.BlockManager
use mmu.BlockDirectory
use mmu.Context
use mmu.Context.{Context, new_context, Session}
use mmu.Runtime.{Runtime, new_runtime, find_context, in_context, erase, directory, find}
use mmu.Residency.{reclaim_unused_resident_blocks, register_fresh_block, forget_block}
use mmu.Cow.{clone_block_data_for_cow}
pub use Handles.{Handle, Call, on_runtime, to_int}

-- A null `config` is `none`. The result is what `*out_mmu` points to.
unfoldable pub mmu_init : Host → Option Config → OutPtr → Result Runtime
mmu_init host none out_mmu = err invalid_argument
mmu_init host (some config) out_mmu =
    if is_null out_mmu
    then err invalid_argument
    else if ltb config.size sizeof_config || not (config.api_version == api_version)
    then err version_mismatch
    else if config.l1_block_count == 0 || config.block_size_bytes == 0
    then err invalid_argument
    else ok (new_runtime host (resolve host config))

-- Every context goes, and then the runtime.
unfoldable pub mmu_shutdown : Handle → Handle
mmu_shutdown mmu = none

abbrev pub handles : List (ℕ × Context) → List ℕ
handles = map (λ e. e.0)

-- `contexts.emplace(handle, std::move(ctx))`, at the address that the host gives.
abbrev pub emplace : Context → Exec Runtime ℕ
emplace c rt =
    let handle = rt.host.new_handle (handles rt.contexts) in
    (ok handle, record rt { contexts = (handle, c) ∷ rt.contexts })

unfoldable pub create_context : Exec Runtime ℕ
create_context rt = emplace (new_context rt.config.block_size_bytes) rt

unfoldable pub mmu_create_context : OutPtr → Call ℕ
unfolding create_context
mmu_create_context out_ctx = do
  fail_if (is_null out_ctx) invalid_argument
  on_runtime invalid_argument create_context

-- The destructor of the context runs in `contexts.erase`.
abbrev pub destroy_found : ℕ → Option Context → Runtime → Runtime
destroy_found ctx none rt = rt
destroy_found ctx (some c) rt = reclaim_unused_resident_blocks (record rt {
  l1_allocator = Context.release_all_blocks c rt.l1_allocator;
  contexts = erase ctx rt.contexts;
})

unfoldable pub destroy_context : ℕ → Runtime → Runtime
destroy_context ctx rt = destroy_found ctx (find_context ctx rt) rt

unfoldable pub mmu_destroy_context : ℕ → Handle → Handle
unfolding destroy_context
mmu_destroy_context ctx none = none
mmu_destroy_context ctx (some rt) = some (destroy_context ctx rt)

abbrev pub fork_found : Context → Exec Runtime ℕ
fork_found c rt =
    let child = Context.fork c rt.l1_allocator in
    emplace child.context (record rt { l1_allocator = child.manager })

unfoldable pub fork_context : ℕ → Exec Runtime ℕ
fork_context src_ctx = do
  src ← gets (find_context src_ctx)
  context ← or_fail src bad_handle
  fork_found context

unfoldable pub mmu_fork_context : ℕ → OutPtr → Call ℕ
unfolding fork_context
mmu_fork_context src_ctx out_ctx = do
  fail_if (src_ctx == 0 || is_null out_ctx) invalid_argument
  on_runtime invalid_argument (fork_context src_ctx)

unfoldable pub register_all : List ℤ → Runtime → Runtime
register_all [] rt = rt
register_all (pbid ∷ pbids) rt = register_all pbids (register_fresh_block pbid rt)

unfoldable pub allocate_blocks : ℕ → ℕ → Exec Runtime (Unit {0})
unfolding register_all
allocate_blocks ctx num_blocks = do
  context ← gets (find_context ctx)
  or_fail context bad_handle
  count ← or_fail (to_int num_blocks) invalid_argument
  modify reclaim_unused_resident_blocks
  new_blocks ← in_context ctx (Context.allocate_blocks count)
  modify (register_all new_blocks)

unfoldable pub mmu_allocate_blocks : ℕ → ℕ → Call (Unit {0})
unfolding allocate_blocks
mmu_allocate_blocks ctx num_blocks = on_runtime bad_handle (allocate_blocks ctx num_blocks)

abbrev pub lift : {A : Type 0} → Result A → Exec Runtime A
lift r rt = (r, rt)

unfoldable pub resolve_routing : ℕ → ℕ → OutPtr → Exec Runtime PhysicalRoute
resolve_routing ctx logical_block out_route = do
  found ← gets (find_context ctx)
  context ← or_fail found bad_handle
  lvid ← or_fail (to_int logical_block) invalid_argument
  d ← gets (λ rt. rt.block_directory)
  lift (Context.resolve_routing context d lvid out_route)

unfoldable pub mmu_resolve_routing : ℕ → ℕ → OutPtr → Call PhysicalRoute
unfolding resolve_routing
mmu_resolve_routing ctx logical_block out_route =
    on_runtime bad_handle (resolve_routing ctx logical_block out_route)

-- A block without references is forgotten.
abbrev pub forget_if_unused : ℤ → Runtime → Runtime
forget_if_unused pbid rt =
    if BlockManager.ref_count rt.l1_allocator pbid ==ℤ pos 0 then forget_block pbid rt else rt

unfoldable pub release_logical_block : ℕ → ℕ → Exec Runtime (Unit {0})
unfolding resolve_routing
release_logical_block ctx logical_block = do
  route ← resolve_routing ctx logical_block ptr
  lvid ← or_fail (to_int logical_block) invalid_argument
  in_context ctx (Context.release_logical_block lvid)
  modify (forget_if_unused route.physical_block_id)

unfoldable pub mmu_release_logical_block : ℕ → ℕ → Call (Unit {0})
unfolding release_logical_block
mmu_release_logical_block ctx logical_block =
    on_runtime bad_handle (release_logical_block ctx logical_block)

-- The data of the old block goes to the new one that PrepareBlockForWrite has put in its place.
abbrev pub clone_if_moved : PhysicalRoute → ℤ → Exec Runtime (Unit {0})
clone_if_moved before pbid = if pbid ==ℤ before.physical_block_id then pure tt else do
  modify (directory λ d. BlockDirectory.initialize_fresh_block d pbid)
  modify (directory λ d. BlockDirectory.set_tier d pbid l2)
  clone_block_data_for_cow before.physical_block_id before.tier pbid

unfoldable pub prepare_block_for_write : ℕ → ℕ → Exec Runtime ℤ
unfolding resolve_routing
prepare_block_for_write ctx logical_block = do
  before ← resolve_routing ctx logical_block ptr
  lvid ← or_fail (to_int logical_block) invalid_argument
  pbid ← in_context ctx (Context.prepare_block_for_write lvid ptr)
  clone_if_moved before pbid
  pure pbid

unfoldable pub mmu_prepare_block_for_write : ℕ → ℕ → OutPtr → Call ℤ
unfolding prepare_block_for_write
mmu_prepare_block_for_write ctx logical_block out_physical_block = do
  fail_if (is_null out_physical_block) invalid_argument
  on_runtime bad_handle (prepare_block_for_write ctx logical_block)
