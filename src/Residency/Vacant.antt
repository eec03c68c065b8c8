-- ===== src/Residency/Vacant.antt =====
-- After ReclaimUnusedResidentBlocks no block without references is allocated in the directory.
use mmu.Prelude.{
  ℕ, zero, suc, ◌+◌, ◌<◌, ◌≤◌, pos, ◌≡◌, ◌∙◌, ap, arith, false, inl, inr, get_elem?, ◌==◌, ◌==ℤ◌,
  if◌then◌else◌, Bool-cases,
}
use mmu.Exec.{or_same}
use mmu.BlockManager
use mmu.BlockDirectory
use mmu.BlockDirectory.{default_meta}
use mmu.BlockDirectory.Writes.{written, mutable_get-at, reset-at}
use mmu.Runtime.{Runtime, block_meta_for}
use mmu.Residency.{
  reset_block_data, forget_block, reclaim_block, reclaim_from, reclaim_unused_resident_blocks,
  is_allocated, is_resident, cleared, one_fewer,
}
use mmu.Residency.Reclaim.{dropped}
use mmu.Frame.Residency.{reclaim_block-Frames}

dropped-metas :
    (k i : ℕ) (rt : Runtime)
    → get_elem? (dropped k rt).block_directory.metas i ≡ (
        if k == i
        then written (λ _. default_meta) (get_elem? rt.block_directory.metas i)
        else get_elem? rt.block_directory.metas i)
unfolding reset_block_data
dropped-metas k i rt = ground (
  arith,
  reset-at
      (or_same rt.block_directory (BlockDirectory.mutable_get rt.block_directory (pos k) cleared)) k
      i,
  mutable_get-at rt.block_directory k i cleared,
)

pub forget_block-metas :
    (k i : ℕ) (rt : Runtime)
    → get_elem? (forget_block (pos k) rt).block_directory.metas i ≡ (
        if k == i
        then written (λ _. default_meta) (get_elem? rt.block_directory.metas i)
        else get_elem? rt.block_directory.metas i)
unfolding forget_block
forget_block-metas k i rt = elim (Bool-cases (is_resident (block_meta_for (pos k) rt))) [
  | inl t ↦ rw t (dropped-metas k i (one_fewer rt))
  | inr f ↦ rw f (dropped-metas k i rt)
]

-- Block `i` is not allocated.
abbrev pub Vacant : ℕ → Runtime → Type 0
Vacant i rt = is_allocated (get_elem? rt.block_directory.metas i) ≡ false

forget_block-Vacant : (k i : ℕ) (rt : Runtime) → Vacant i rt → Vacant i (forget_block (pos k) rt)
forget_block-Vacant k i rt h = ground (arith, forget_block-metas k i rt, h)

forget_block-Vacant_self : (i : ℕ) (rt : Runtime) → Vacant i (forget_block (pos i) rt)
forget_block-Vacant_self i rt = ground (arith, forget_block-metas i i rt)

reclaim_block-Vacant : (k i : ℕ) (rt : Runtime) → Vacant i rt → Vacant i (reclaim_block (pos k) rt)
unfolding reclaim_block
reclaim_block-Vacant k i rt h =
    elim (Bool-cases (BlockManager.ref_count rt.l1_allocator (pos k) ==ℤ pos 0)) [
      | inl t ↦ rw t (forget_block-Vacant k i rt h)
      | inr f ↦ rw f h
    ]

reclaim_block-Vacant_self :
    (i : ℕ) (rt : Runtime)
    → BlockManager.ref_count rt.l1_allocator (pos i) ≡ pos 0
    → Vacant i (reclaim_block (pos i) rt)
unfolding reclaim_block
reclaim_block-Vacant_self i rt none_left = rw none_left (forget_block-Vacant_self i rt)

reclaim_from-Vacant : (n k i : ℕ) (rt : Runtime) → Vacant i rt → Vacant i (reclaim_from k n rt)
unfolding reclaim_from
reclaim_from-Vacant zero k i rt h = h
reclaim_from-Vacant (suc n) k i rt h =
    reclaim_from-Vacant n (suc k) i _ (reclaim_block-Vacant k i rt h)

reclaim_from-Vacant_unused :
    (n k i : ℕ) (rt : Runtime)
    → k ≤ i
    → i < k + n
    → BlockManager.ref_count rt.l1_allocator (pos i) ≡ pos 0
    → Vacant i (reclaim_from k n rt)
unfolding reclaim_from
reclaim_from-Vacant_unused zero k i rt le lt none_left = absurd (omega arith)
reclaim_from-Vacant_unused (suc n) k i rt le lt none_left = elim (Bool-cases (k == i)) [
  | inl e ↦
      let same : k ≡ i = ground arith in
      reclaim_from-Vacant n (suc k) i _ (rw same (reclaim_block-Vacant_self i rt none_left))
  | inr f ↦
      reclaim_from-Vacant_unused n (suc k) i (reclaim_block (pos k) rt) (ground arith) (omega arith)
        (ap (λ m. BlockManager.ref_count m (pos i)) (reclaim_block-Frames (pos k) rt).same_allocator
          ∙ none_left)
]

pub reclaim-Vacant :
    (rt : Runtime) (i : ℕ)
    → i < rt.config.l1_block_count
    → BlockManager.ref_count rt.l1_allocator (pos i) ≡ pos 0
    → Vacant i (reclaim_unused_resident_blocks rt)
unfolding reclaim_unused_resident_blocks
reclaim-Vacant rt i lt none_left =
    reclaim_from-Vacant_unused rt.config.l1_block_count 0 i rt (omega arith) (omega arith) none_left
