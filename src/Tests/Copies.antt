-- ===== src/Tests/Copies.antt =====
-- A block with bytes in it is shared by a fork, and copied before the fork writes to it.
use mmu.Prelude.{arith, ◌≤◌, ℕ, ℤ, ◌+◌, pos, ◌≡◌, refl, List, [], ◌∷◌, none, some, true, false, ◌⊎◌}
use mmu.Types.{Result, ok, ptr, PagePtr, PhysicalRoute, MappedBlock, l1}
use mmu.Context
use mmu.BlockManager
use mmu.BlockDirectory
use mmu.ChunkPool.{owner, zero_page}
use mmu.Paging.Pages.{content, Same}
use mmu.Residency.{is_resident}
use mmu.Data.Housed.{entry, tier_of}
use mmu.Data.Housed.History.{performs-houses}
use mmu.Runtime.{Runtime}
use mmu.Cow.{clone_block_data_for_cow}
use mmu.Api.{Handle, resolve_routing, prepare_block_for_write, fork_context, mmu_fork_context}
use mmu.History.{Action, performs, client_write}
use mmu.Data.Moves.{block_data, InUse}
use mmu.Api.Mapping.{map_logical_block}
use mmu.Data.Writing.{Opened, performs-Opened, performs-isolates}
use mmu.Data.Preparing.{Prepared}
use mmu.Data.Preparing.Histories.{performs-Prepared}
use mmu.Tests.Runtimes.{roomy, small, booted, boots, code}
use mmu.Tests.Histories.{booted_narrow}

abbrev page : PagePtr
page = record { chunk = 0; block = 1 }

abbrev mapped : MappedBlock
mapped = record {
  host_ptr = page;
  size_bytes = 4;
  physical_block_id = pos 0;
  logical_block_id = 0;
  map_flags = 3;
}

-- Byte k becomes k + 7.
abbrev steps : List Action
steps =
    Action.create
    ∷ Action.allocate 1 1
    ∷ Action.map_block 1 0 3
    ∷ Action.write page 4 (λ k. k + 7)
    ∷ Action.unmap_block 1 mapped
    ∷ Action.fork 1
    ∷ []

abbrev runtime_of : Handle → Runtime
runtime_of none = booted
runtime_of (some rt) = rt

abbrev forked : Runtime
forked = runtime_of (performs steps (some booted))

steps_run : performs steps (some booted) ≡ some forked
unfolding code fork_context mmu_fork_context Context.fork
steps_run = refl

abbrev route : PhysicalRoute
route = record { tier = l1; physical_block_id = pos 0; byte_offset = 0 }

is_routed : (resolve_routing 2 0 ptr forked).0 ≡ ok route
unfolding code fork_context mmu_fork_context Context.fork Context.retain_ids BlockManager.retain
is_routed = refl

performs-Prepared_example :
    Prepared
      (pos 0)
      forked
      (prepare_block_for_write 2 0 forked).0
      (prepare_block_for_write 2 0 forked).1
performs-Prepared_example =
    performs-Prepared roomy (some small) ptr booted boots booted_narrow steps forked steps_run 2 0
      route is_routed

-- The block that is handed out, and a byte of it.
handed_out : (prepare_block_for_write 2 0 forked).0 ≡ ok (pos 1)
unfolding code fork_context mmu_fork_context Context.fork clone_block_data_for_cow
    Context.retain_ids BlockManager.retain BlockManager.release BlockDirectory.set_tier
handed_out = refl

copied_byte : block_data (prepare_block_for_write 2 0 forked).1 1 2 ≡ 9
unfolding code fork_context mmu_fork_context Context.fork clone_block_data_for_cow
    Context.retain_ids BlockManager.retain BlockManager.release BlockDirectory.set_tier
copied_byte = refl

performs-houses_example :
    ((is_resident (entry forked 0) ≡ true)
      × (tier_of (entry forked 0) ≡ l1)
      × (((q : PagePtr) × (owner forked.l1_pool 0 ≡ some q))
          ⊎ Same forked.config.block_size_bytes (content forked.l2_pool 0) zero_page))
    ⊎ ((is_resident (entry forked 0) ≡ false) × (owner forked.l1_pool 0 ≡ none))
performs-houses_example =
    performs-houses roomy (some small) ptr booted boots booted_narrow steps forked steps_run 0

performs-Opened_example :
    Opened (pos 0) forked (map_logical_block 2 0 3 forked).0 (map_logical_block 2 0 3 forked).1
performs-Opened_example =
    performs-Opened roomy (some small) ptr booted boots booted_narrow steps forked steps_run 2 0 3
      route is_routed refl

-- The block that is mapped, and a byte through the pointer.
abbrev seen : Result MappedBlock × Runtime → ℤ × ℕ
seen (ok m, rt) = (m.physical_block_id, rt.l1_pool.memory m.host_ptr 2)
seen (r, rt) = (pos 0, 0)

mapped_copy : seen (map_logical_block 2 0 3 forked) ≡ (pos 1, 9)
unfolding code fork_context mmu_fork_context Context.fork clone_block_data_for_cow
    Context.retain_ids BlockManager.retain BlockManager.release BlockDirectory.set_tier
mapped_copy = refl

-- What the map hands out.
abbrev handed : MappedBlock
handed = record {
  host_ptr = page;
  size_bytes = 4;
  physical_block_id = pos 1;
  logical_block_id = 0;
  map_flags = 3;
}

is_handed : (map_logical_block 2 0 3 forked).0 ≡ ok handed
unfolding code fork_context mmu_fork_context Context.fork clone_block_data_for_cow
    Context.retain_ids BlockManager.retain BlockManager.release BlockDirectory.set_tier
is_handed = refl

is_used : InUse forked 0
unfolding code fork_context mmu_fork_context Context.fork Context.retain_ids BlockManager.retain
is_used = refl

one_block : 4 ≤ forked.config.block_size_bytes
unfolding code fork_context mmu_fork_context Context.fork Context.retain_ids BlockManager.retain
one_block = omega arith

-- A write of six bytes from the first page of a chunk on goes on into the second.
spills :
    (client_write (record { chunk = 0; block = 0 }) 6 (λ k. k) booted).l1_pool.memory page 1 ≡ 5
unfolding code
spills = refl

-- The fork writes zeros; block 0, which the first context still maps, keeps its bytes.
performs-isolates_example :
    Same forked.config.block_size_bytes
      (block_data (client_write page 4 zero_page (map_logical_block 2 0 3 forked).1) 0)
      (block_data forked 0)
performs-isolates_example =
    performs-isolates roomy (some small) ptr booted boots booted_narrow steps forked steps_run 2 0 3
      route handed 4 zero_page 0 is_routed refl is_handed is_used refl one_block
