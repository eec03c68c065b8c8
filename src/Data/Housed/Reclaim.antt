-- ===== src/Data/Housed/Reclaim.antt =====
-- Forgetting and reclaiming keep every block housed.
use mmu.Prelude.{
  ℕ, zero, suc, ℤ, pos, negsuc, ◌==ℤ◌, ◌≡◌, refl, ap, ◌∙◌, arith, false, Bool-cases, inl, inr, some,
  ◌==◌,
}
use mmu.BlockManager
use mmu.BlockDirectory
use mmu.BlockDirectory.Writes.{reset-at, written}
use mmu.ChunkPool.{release_page}
use mmu.Runtime.{Runtime, Pool, block_meta_for}
use mmu.Paging.Pages.{release_page-owner_ne, release_page-owner}
use mmu.Residency.{
  reset_block_data, forget_block, reclaim_block, reclaim_from, reclaim_unused_resident_blocks,
  is_resident, one_fewer,
}
use mmu.Residency.Reclaim.{dropped}
use mmu.Data.{by_pool}
use mmu.Data.Fresh.{reset_block_data-other}
use mmu.Data.Reclaim.{reset_pages, reset-Apart}
use mmu.Data.Sharing.{directory-StaysApart}
use mmu.Data.Housed.{entry, tier_of, StaysHoused, all_but-IsHoused, fields-StaysHoused, out-House}
use mmu.Data.Housed.Writes.{written-out}

module _ (i : ℕ) (rt : Runtime) where
  dropped-out : is_resident (entry (dropped i rt) i) ≡ false
  dropped-out =
      ap is_resident at
      ∙ written-out (λ _. BlockDirectory.default_meta) (entry (reset_block_data (pos i) rt) i)
          (λ m. refl)
    where
      at :
          entry (dropped i rt) i
          ≡ written (λ _. BlockDirectory.default_meta) (entry (reset_block_data (pos i) rt) i)
      at = ground (arith, reset-at (reset_block_data (pos i) rt).block_directory i i)

  dropped-other : (j : ℕ) → (i == j) ≡ false → entry (dropped i rt) j ≡ entry rt j
  unfolding reset_block_data
  dropped-other j ne =
      let at : entry (dropped i rt) j ≡ entry (reset_block_data (pos i) rt) j =
        ground (arith, reset-at (reset_block_data (pos i) rt).block_directory i j, ne) in
      at ∙ reset_block_data-other i j ne rt

  dropped-StaysHoused : StaysHoused rt (dropped i rt)
  unfolding reset_block_data
  dropped-StaysHoused g =
      all_but-IsHoused i rt (dropped i rt)
        (directory-StaysApart (λ d. some (BlockDirectory.reset d (pos i)))
          (reset_block_data (pos i) rt) (reset-Apart i rt g.apart))
        refl
        (λ j ne. record {
          same_resident = ap is_resident (dropped-other j ne);
          same_tier = ap tier_of (dropped-other j ne);
          same_l1 = release_page-owner_ne rt.l1_pool i j ne;
          same_l2 = λ k lt. ap (λ f. f k) (reset_pages i rt Pool.l2_pool j ne);
        })
        (out-House _ _ _ _ dropped-out (release_page-owner rt.l1_pool i)) g

one_fewer-StaysHoused : (rt : Runtime) → StaysHoused rt (one_fewer rt)
one_fewer-StaysHoused rt = fields-StaysHoused rt (one_fewer rt) refl (by_pool _ refl refl) refl

forgotten-StaysHoused : (i : ℕ) (rt : Runtime) → StaysHoused rt (forget_block (pos i) rt)
unfolding forget_block
forgotten-StaysHoused i rt g = elim (Bool-cases (is_resident (block_meta_for (pos i) rt))) [
  | inl t ↦ rw t (dropped-StaysHoused i (one_fewer rt) (one_fewer-StaysHoused rt g))
  | inr f ↦ rw f (dropped-StaysHoused i rt g)
]

pub forget_block-StaysHoused : (id : ℤ) (rt : Runtime) → StaysHoused rt (forget_block id rt)
unfolding forget_block reset_block_data release_page BlockDirectory.reset BlockDirectory.mutable_get
    BlockDirectory.get
forget_block-StaysHoused (pos i) rt g = forgotten-StaysHoused i rt g
forget_block-StaysHoused (negsuc n) rt g =
    fields-StaysHoused rt (forget_block (negsuc n) rt) refl (by_pool _ refl refl) refl g

reclaim_block-StaysHoused : (id : ℤ) (rt : Runtime) → StaysHoused rt (reclaim_block id rt)
unfolding reclaim_block
reclaim_block-StaysHoused id rt g =
    elim (Bool-cases (BlockManager.ref_count rt.l1_allocator id ==ℤ pos 0)) [
      | inl t ↦ rw t (forget_block-StaysHoused id rt g)
      | inr f ↦ rw f g
    ]

reclaim_from-StaysHoused : (n i : ℕ) (rt : Runtime) → StaysHoused rt (reclaim_from i n rt)
unfolding reclaim_from
reclaim_from-StaysHoused zero i rt g = g
reclaim_from-StaysHoused (suc n) i rt g =
    reclaim_from-StaysHoused n (suc i) (reclaim_block (pos i) rt)
      (reclaim_block-StaysHoused (pos i) rt g)

pub reclaim-StaysHoused : (rt : Runtime) → StaysHoused rt (reclaim_unused_resident_blocks rt)
unfolding reclaim_unused_resident_blocks
reclaim-StaysHoused rt = reclaim_from-StaysHoused rt.config.l1_block_count 0 rt
