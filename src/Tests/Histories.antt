-- ===== src/Tests/Histories.antt =====
-- The guarantees after a history of two calls on a runtime of three blocks.
use mmu.Prelude.{
  ◌<◌, ◌≤◌, ◌≡◌, refl, subst, arith, true, List, [], ◌∷◌, Option, none, some, get_elem?, tally,
  u32_mod, ltb, ◌+◌, ℕ,
}
use mmu.Types.{ptr, Result}
use mmu.Exec.{◌>>=◌}
use mmu.BlockManager.{count_at, free_blocks}
use mmu.Api
use mmu.BlockDirectory.{BlockMeta}
use mmu.Data.Housed.{entry}
use mmu.Api.{Handle}
use mmu.History.{Action, performs}
use mmu.Residency.Calm.{flags}
use mmu.Residency.Eviction.{is_set}
use mmu.Settled.{Settled}
use mmu.Settled.Batch.{Batch, mmu_map_logical_blocks-Batch}
use mmu.Api.Mapping.{mmu_map_logical_blocks, map_each, unmap_all}
use mmu.Api.Queries.{mmu_get_free_block_count}
use mmu.Settled.History.{comes_back, SettledAt}
use mmu.Settled.Guarantees.{
  history-SettledAt, performs-within_limit, performs-referenced, performs-comes_back,
  performs-free_blocks,
}
use mmu.Tests.Runtimes.{roomy, small, booted, boots, code, created, allocated}

abbrev two_calls : List Action
two_calls = Action.create ∷ Action.allocate 1 2 ∷ []

runs : performs two_calls (some booted) ≡ some allocated
unfolding created allocated Api.mmu_create_context Api.mmu_allocate_blocks ◌>>=◌
runs = refl

pub booted_narrow : booted.config.l1_block_count < u32_mod
unfolding code
booted_narrow = omega arith

-- Block 0 went to L1.
first_resident : get_elem? (flags allocated) 0 ≡ some true
unfolding code created allocated
first_resident = refl

performs-within_limit_example :
    (allocated.resident_count ≡ tally is_set (flags allocated))
    × (allocated.resident_count ≤ allocated.resident_limit)
performs-within_limit_example =
    performs-within_limit roomy (some small) ptr booted boots booted_narrow two_calls allocated runs

performs-referenced_example : 0 < count_at allocated.l1_allocator 0
performs-referenced_example =
    performs-referenced roomy (some small) ptr booted boots booted_narrow two_calls allocated 0 runs
      first_resident

performs-comes_back_example :
    comes_back (Action.map_block 1 1 3) (performs two_calls (some booted)) ≡ true
performs-comes_back_example =
    performs-comes_back roomy (some small) ptr booted boots booted_narrow two_calls
      (Action.map_block 1 1 3)

allocated-Settled : Settled allocated
allocated-Settled =
    subst SettledAt runs
      (history-SettledAt roomy (some small) ptr booted boots booted_narrow two_calls)

-- Logical block 0 is mapped for reading; block 7 does not exist, so that block 0 is unmapped again.
mmu_map_logical_blocks-Batch_example :
    Batch 1 1
      (0 ∷ 7 ∷ [])
      (some allocated)
      []
      (mmu_map_logical_blocks 1 ptr (0 ∷ 7 ∷ []) 1 ptr (some allocated))
mmu_map_logical_blocks-Batch_example =
    mmu_map_logical_blocks-Batch 1 1 (0 ∷ 7 ∷ []) allocated allocated-Settled

abbrev pins_of : Option BlockMeta → ℕ
pins_of none = 9
pins_of (some m) = m.pin_count

-- The pins of block 0 that a call leaves.
abbrev pins : {A : Type 0} → Result A × Handle → ℕ
pins (r, none) = 9
pins (r, some rt) = pins_of (entry rt 0)

pinned_once : pins (mmu_map_logical_blocks 1 ptr (0 ∷ []) 1 ptr (some allocated)) ≡ 1
unfolding code created allocated Api.mmu_create_context Api.mmu_allocate_blocks ◌>>=◌
    mmu_map_logical_blocks map_each unmap_all
pinned_once = refl

rolled_back : pins (mmu_map_logical_blocks 1 ptr (0 ∷ 7 ∷ []) 1 ptr (some allocated)) ≡ 0
unfolding code created allocated Api.mmu_create_context Api.mmu_allocate_blocks ◌>>=◌
    mmu_map_logical_blocks map_each unmap_all
rolled_back = refl

performs-free_blocks_example :
    mmu_get_free_block_count (some allocated)
      + tally (λ r. ltb 0 r) allocated.l1_allocator.ref_counts
    ≡ allocated.config.l1_block_count
performs-free_blocks_example =
    performs-free_blocks roomy (some small) ptr booted boots booted_narrow two_calls allocated runs

-- Two of the three blocks are taken.
one_is_free : mmu_get_free_block_count (some allocated) ≡ 1
unfolding code created allocated Api.mmu_create_context Api.mmu_allocate_blocks ◌>>=◌
    mmu_get_free_block_count free_blocks
one_is_free = refl
