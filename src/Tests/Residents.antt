-- ===== src/Tests/Residents.antt =====
-- Residency on small runtimes: one block resident at most, blocks 0 and 1 allocated or none.
use mmu.Prelude.{pos, ◌<◌, ◌≡◌, refl, arith, false, some, get_elem?, length, length}
use mmu.Residency.{
  reclaim_unused_resident_blocks, evict_one, evict_while_full, ensure_resident_in_l1,
  register_fresh_block,
}
use mmu.Residency.Calm.{flags}
use mmu.Residency.Eviction.{Evicts, evict_one-Evicts}
use mmu.Residency.Reclaim.{reclaim_unused_resident_blocks-clears}
use mmu.BlockManager.{ref_count}
use mmu.Residency.Room.{Shrinks, Room, evict_while_full-Room}
use mmu.Residency.Promotion.{IsBounded, Brings}
use mmu.Residency.Bounds.{ensure_resident_in_l1-Brings}
use mmu.Residency.Fresh.{Placed, register_fresh_block-Placed}
use mmu.Tests.Runtimes.{code, created, allocated}

allocated-IsBounded : IsBounded allocated
unfolding code created allocated
allocated-IsBounded = record { counted = refl; within = omega arith; narrow = omega arith }

ensure_resident_in_l1-Brings_example :
    Brings
      (pos 1)
      allocated
      (ensure_resident_in_l1 (pos 1) allocated).0
      (ensure_resident_in_l1 (pos 1) allocated).1
ensure_resident_in_l1-Brings_example =
    ensure_resident_in_l1-Brings (pos 1) allocated allocated-IsBounded

evict_one-Evicts_example :
    Evicts allocated (evict_one (pos 1) allocated).0 (evict_one (pos 1) allocated).1
evict_one-Evicts_example = evict_one-Evicts (pos 1) allocated

allocated_count : allocated.resident_count < 4
unfolding code created allocated
allocated_count = omega arith

evict_while_full-Room_example :
    Room allocated (evict_while_full 4 (pos 1) allocated).0 (evict_while_full 4 (pos 1) allocated).1
evict_while_full-Room_example =
    evict_while_full-Room 4 (pos 1) allocated allocated-IsBounded.counted allocated_count

created-IsBounded : IsBounded created
unfolding code created
created-IsBounded = record { counted = refl; within = omega arith; narrow = omega arith }

created_out : get_elem? (flags created) 1 ≡ some false
unfolding code created
created_out = refl

register_fresh_block-Placed_example : Placed 1 created (register_fresh_block (pos 1) created)
register_fresh_block-Placed_example =
    register_fresh_block-Placed 1 created created-IsBounded created_out

-- Block 2 of `allocated` has no references.
allocated_unused : ref_count allocated.l1_allocator (pos 2) ≡ pos 0
unfolding code created allocated
allocated_unused = refl

allocated_blocks : (2 < allocated.config.l1_block_count) × (2 < length (flags allocated))
unfolding code created allocated
allocated_blocks = (omega arith, omega arith)

reclaim_unused_resident_blocks-clears_example :
    (get_elem? (flags (reclaim_unused_resident_blocks allocated)) 2 ≡ some false)
    × Shrinks allocated (reclaim_unused_resident_blocks allocated)
reclaim_unused_resident_blocks-clears_example =
    reclaim_unused_resident_blocks-clears allocated 2 allocated-IsBounded.counted allocated_blocks.0
      allocated_blocks.1 allocated_unused
