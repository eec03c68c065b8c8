-- ===== src/BlockManager/Conservation.antt =====
-- Conservation of blocks, and the round trip of an allocation.
use mmu.Prelude.{
  ℕ, zero, suc, ◌+◌, ◌<◌, ℤ, ◌≡◌, refl, ap, List, [], ◌∷◌, some, arith, length, get_elem?, set,
  tally, ltb, get_elem?-set_self, length-set, lt_of_get_elem?,
}
use mmu.Types.{ptr}
use mmu.BlockManager.{BlockManager, free_blocks, capacity, allocate, release, take_back}
use mmu.BlockManager.Invariant.{IsValid, is_zero, head-free}

tally-split : (rs : List ℕ) → tally is_zero rs + tally (λ r. ltb 0 r) rs ≡ length rs
tally-split [] = omega arith
tally-split (r ∷ rs) = ground (arith, tally-split rs)

-- The free blocks and those with a reference make up the capacity.
pub free_blocks_capacity :
    (m : BlockManager) → IsValid m → free_blocks m + tally (λ r. ltb 0 r) m.ref_counts ≡ capacity m
unfolding free_blocks capacity
free_blocks_capacity m v = omega (arith, v.counted, tally-split m.ref_counts)

set-set : (rs : List ℕ) (i v old : ℕ) → get_elem? rs i ≡ some old → set (set rs i v) i old ≡ rs
set-set [] i v old h = refl
set-set (r ∷ rs) zero v old h = ground arith
set-set (r ∷ rs) (suc i) v old h = ap (λ t. r ∷ t) (set-set rs i v old h)

-- Releasing a block right after its allocation by a well-formed manager restores the manager, the
-- order of the free list included.
pub release-allocate :
    (m m' : BlockManager) (id : ℤ)
    → IsValid m
    → allocate m ptr ≡ some (id, m')
    → release m' id ≡ some m
unfolding allocate release
release-allocate m m' id v done = go m.free_list m.ref_counts v done
  where
    go :
        (fl rs : List ℕ)
        → IsValid (record { ref_counts = rs; free_list = fl })
        → take_back (record { ref_counts = rs; free_list = fl }) fl ≡ some (id, m')
        → release m' id ≡ some (record { ref_counts = rs; free_list = fl })
    go [] rs v e = absurd (cc)
    go (i ∷ rest) rs v e =
        let free : get_elem? rs i ≡ some 0 = head-free i rest rs (v.once i) in
        let bound : i < length rs = lt_of_get_elem? rs i free in
        ground (arith, get_elem?-set_self rs i 1 bound, length-set rs i 1, set-set rs i 1 0 free)
