-- ===== src/Tests/Stranded.antt =====
-- A copy on write for which L2 has no page left.
use mmu.Prelude.{pos, ◌≡◌, refl, List, [], ◌∷◌, none, some}
use mmu.Types.{ok, err, out_of_memory, ptr, PhysicalRoute, l2}
use mmu.Config.{Config, resolve}
use mmu.Context
use mmu.BlockManager
use mmu.BlockDirectory
use mmu.Runtime.{Runtime, new_runtime, in_context}
use mmu.Cow.{clone_block_data_for_cow}
use mmu.Api.{Handle, resolve_routing, prepare_block_for_write, fork_context, mmu_fork_context}
use mmu.History.{Action, performs}
use mmu.Settled.Stranded.{Moved, prepare_block_for_write-Moved}
use mmu.Tests.Runtimes.{roomy, small, code}

-- One page of L2.
abbrev cramped : Config
cramped = record small { l2_block_count = 1 }

-- Block 1 comes to L1, for which block 0 takes the page of L2.
abbrev steps : List Action
steps = Action.create ∷ Action.allocate 1 2 ∷ Action.map_block 1 1 1 ∷ Action.fork 1 ∷ []

abbrev fresh : Runtime
fresh = new_runtime roomy (resolve roomy cramped)

abbrev runtime_of : Handle → Runtime
runtime_of none = fresh
runtime_of (some rt) = rt

abbrev full : Runtime
full = runtime_of (performs steps (some fresh))

abbrev route : PhysicalRoute
route = record { tier = l2; physical_block_id = pos 0; byte_offset = 0 }

is_routed : (resolve_routing 2 0 ptr full).0 ≡ ok route
unfolding code fork_context mmu_fork_context Context.fork Context.retain_ids BlockManager.retain
is_routed = refl

is_given : (in_context 2 (Context.prepare_block_for_write (pos 0) ptr) full).0 ≡ ok (pos 2)
unfolding code fork_context mmu_fork_context Context.fork Context.retain_ids BlockManager.retain
    BlockManager.release
is_given = refl

prepare_block_for_write-Moved_example :
    Moved 2 0 (pos 2) (prepare_block_for_write 2 0 full).0 (prepare_block_for_write 2 0 full).1
prepare_block_for_write-Moved_example =
    prepare_block_for_write-Moved 2 0 full route (pos 2) is_routed is_given

-- The call fails.
no_page_left : (prepare_block_for_write 2 0 full).0 ≡ err out_of_memory
unfolding code fork_context mmu_fork_context Context.fork Context.retain_ids BlockManager.retain
    BlockManager.release clone_block_data_for_cow BlockDirectory.set_tier
no_page_left = refl
