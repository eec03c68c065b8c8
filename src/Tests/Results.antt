-- ===== src/Tests/Results.antt =====
-- Results on the booted runtime of three blocks.
use mmu.Prelude.{ℕ, ◌-◌, ◌≤◌, ◌<◌, pos, negsuc, ◌≡◌, refl, ◌⊎◌, [], ◌∷◌, some, u64_mod}
use mmu.Types.{ptr}
use mmu.BlockDirectory.{BlockMeta}
use mmu.Context.{Context}
use mmu.Runtime.{find_context}
use mmu.Config.Bounds.{mmu_init-bounds}
use mmu.Residency.{pick_eviction_candidate}
use mmu.Residency.Victim.{CanGo, pick_eviction_candidate_oldest}
use mmu.Api.{mmu_resolve_routing}
use mmu.Api.Queries.{mmu_resolve_routing_batch}
use mmu.Api.Queries.Batch.{Runs, mmu_resolve_routing_batch-Runs}
use mmu.Tests.Runtimes.{roomy, small, booted, boots, created, allocated, code}

pick_eviction_candidate_oldest_example :
    ((pick_eviction_candidate allocated (pos 1) ≡ negsuc 0)
      × ((j : ℕ) (n : BlockMeta)
          → j < allocated.config.l1_block_count
          → CanGo allocated (pos 1) j n
          → u64_mod - 1 ≤ n.last_access_epoch))
    ⊎ ((i : ℕ) × (m : BlockMeta) × (pick_eviction_candidate allocated (pos 1) ≡ pos i)
        × (i < allocated.config.l1_block_count)
        × CanGo allocated (pos 1) i m
        × ((j : ℕ) (n : BlockMeta)
            → j < allocated.config.l1_block_count
            → CanGo allocated (pos 1) j n
            → m.last_access_epoch ≤ n.last_access_epoch))
pick_eviction_candidate_oldest_example = pick_eviction_candidate_oldest allocated (pos 1)

-- Block 0 is resident, and is the victim.
victim_is_zero : pick_eviction_candidate allocated (pos 1) ≡ pos 0
unfolding code created allocated
victim_is_zero = refl

mmu_init-bounds_example :
    (0 < booted.resident_limit)
    × (booted.resident_limit ≤ booted.config.l1_block_count)
    × (0 < booted.config.l2_block_count)
    × (booted.config.l2_block_count ≤ booted.config.l1_block_count)
    × (0 < booted.config.chunk_block_count)
    × (booted.config.chunk_block_count ≤ booted.config.l1_block_count)
    × (0 < booted.config.block_size_bytes)
mmu_init-bounds_example = mmu_init-bounds roomy (some small) ptr booted boots

the_context : (c : Context) × (find_context 1 allocated ≡ some c)
unfolding code created allocated
the_context = (_, refl)

mmu_resolve_routing_batch-Runs_example :
    Runs
      (λ lb. (mmu_resolve_routing 1 lb ptr (some allocated)).0)
      (0 ∷ 5 ∷ 1 ∷ [])
      (mmu_resolve_routing_batch 1 ptr (0 ∷ 5 ∷ 1 ∷ []) ptr (some allocated))
mmu_resolve_routing_batch-Runs_example =
    mmu_resolve_routing_batch-Runs 1 allocated the_context.0 (0 ∷ 5 ∷ 1 ∷ []) the_context.1
