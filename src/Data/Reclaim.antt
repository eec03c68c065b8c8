-- ===== src/Data/Reclaim.antt =====
-- Reclaiming blocks without references keeps the bytes of the blocks that have some.
use mmu.Prelude.{
  ℕ, zero, suc, pos, ◌==ℤ◌, ◌≡◌, refl, ap, ◌∙◌, arith, true, false, ◌==◌, get_elem?,
  get_elem?-set_ne, Bool-cases, inl, inr,
}
use mmu.BlockManager
use mmu.Runtime.{Runtime, Pool, pool_of, block_meta_for}
use mmu.Paging.Apart.{release_page-IsApart}
use mmu.Paging.Pages.{content, release_page-content}
use mmu.Residency.{
  reset_block_data, forget_block, reclaim_block, reclaim_from, reclaim_unused_resident_blocks,
  one_fewer, is_resident,
}
use mmu.Residency.Calm.{flags}
use mmu.Residency.Room.{cleared-stays_out}
use mmu.Residency.Reclaim.{dropped, dropped-flags}
use mmu.Data.{Apart, by_pool}
use mmu.Data.Moves.{home, InUse, Preserves, Preserves-order}

-- Resetting a block leaves the pages of the others alone.
pub reset_pages :
    (i : ℕ) (rt : Runtime) (p : Pool) (j : ℕ)
    → (i == j) ≡ false
    → content (pool_of (reset_block_data (pos i) rt) p) j ≡ content (pool_of rt p) j
unfolding reset_block_data
reset_pages i rt Pool.l1_pool j ne = release_page-content rt.l1_pool i j ne
reset_pages i rt Pool.l2_pool j ne = release_page-content rt.l2_pool i j ne

pub reset-Apart : (i : ℕ) (rt : Runtime) → Apart rt → Apart (reset_block_data (pos i) rt)
unfolding reset_block_data
reset-Apart i rt h =
    by_pool _ (release_page-IsApart rt.l1_pool i (h Pool.l1_pool))
      (release_page-IsApart rt.l2_pool i (h Pool.l2_pool))

dropped-Preserves :
    (i : ℕ) (rt : Runtime)
    → (BlockManager.ref_count rt.l1_allocator (pos i) ==ℤ pos 0) ≡ true
    → Preserves rt (dropped i rt)
unfolding reset_block_data
dropped-Preserves i rt unused h = record {
  still_apart = reset-Apart i rt h;
  kept_config = refl;
  kept_allocator = refl;
  kept_out =
      λ j o. ap (λ fs. get_elem? fs j) (dropped-flags i rt) ∙ cleared-stays_out (flags rt) i j o;
  kept_data = λ j u k lt.
      let ne : (i == j) ≡ false = others j u in
      ap (λ f. content (pool_of (dropped i rt) (home f)) j k)
        (ap (λ fs. get_elem? fs j) (dropped-flags i rt)
          ∙ get_elem?-set_ne (flags rt) i j false (ground arith))
      ∙ ap (λ f. f k) (reset_pages i rt (home (get_elem? (flags rt) j)) j ne);
}
  where
    others : (j : ℕ) → InUse rt j → (i == j) ≡ false
    others j u = elim (Bool-cases (i == j)) [
      | inr ne ↦ ne
      | inl e ↦
          let same : i ≡ j = ground arith in
          let both : (BlockManager.ref_count rt.l1_allocator (pos j) ==ℤ pos 0) ≡ true =
            rw (← same) unused in
          absurd (cc (u, both))
    ]

one_fewer-Preserves : (rt : Runtime) → Preserves rt (one_fewer rt)
one_fewer-Preserves rt h = record {
  still_apart = h;
  kept_config = refl;
  kept_allocator = refl;
  kept_out = λ j o. o;
  kept_data = λ j u k lt. refl;
}

reclaim_block-Preserves : (i : ℕ) (rt : Runtime) → Preserves rt (reclaim_block (pos i) rt)
unfolding reclaim_block forget_block
reclaim_block-Preserves i rt h =
    elim (Bool-cases (BlockManager.ref_count rt.l1_allocator (pos i) ==ℤ pos 0)) [
      | inr f ↦ rw f (Preserves-order.rel_refl rt h)
      | inl z ↦ elim (Bool-cases (is_resident (block_meta_for (pos i) rt))) [
        | inl t ↦
            rw (z, t)
              (Preserves-order.rel_trans rt (one_fewer rt) (dropped i (one_fewer rt))
                (one_fewer-Preserves rt) (dropped-Preserves i (one_fewer rt) z) h)
        | inr f ↦ rw (z, f) (dropped-Preserves i rt z h)
      ]
    ]

reclaim_from-Preserves : (n i : ℕ) (rt : Runtime) → Preserves rt (reclaim_from i n rt)
unfolding reclaim_from
reclaim_from-Preserves zero i rt h = Preserves-order.rel_refl rt h
reclaim_from-Preserves (suc n) i rt h =
    Preserves-order.rel_trans rt (reclaim_block (pos i) rt) _ (reclaim_block-Preserves i rt)
      (reclaim_from-Preserves n (suc i) (reclaim_block (pos i) rt)) h

pub reclaim-Preserves : (rt : Runtime) → Preserves rt (reclaim_unused_resident_blocks rt)
unfolding reclaim_unused_resident_blocks
reclaim-Preserves rt = reclaim_from-Preserves rt.config.l1_block_count 0 rt
