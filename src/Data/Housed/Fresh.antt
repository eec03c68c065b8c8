-- ===== src/Data/Housed/Fresh.antt =====
-- The registration of a fresh block keeps every block housed.
use mmu.Prelude.{
  ℕ, ℤ, pos, negsuc, ◌≡◌, refl, sym, subst, ap, ◌∙◌, arith, true, false, Option, none, some,
  Bool-cases, inl, inr, ltb, ◌==◌, if◌then◌else◌,
}
use mmu.Types.{l1}
use mmu.BlockDirectory
use mmu.BlockDirectory.{BlockMeta}
use mmu.BlockDirectory.Writes.{get-at}
use mmu.ChunkPool.{owner, release_page}
use mmu.Runtime.{Runtime, Pool, directory, block_meta_for, write_meta, touch_block}
use mmu.Paging.Pages.{release_page-owner_ne, release_page-owner, content}
use mmu.Residency.{
  reset_block_data, register_fresh_block, admit_fresh, park_fresh, place_fresh, is_resident,
  one_more,
}
use mmu.Data.{by_pool}
use mmu.Data.Fresh.{
  register_fresh_block-Zeroed, place_fresh-other, place_fresh-pools, reset_block_data-other,
  opened-other, reset-zero,
}
use mmu.Data.Reclaim.{reset_pages}
use mmu.Data.Housed.{entry, tier_of, StaysHoused, all_but-IsHoused, fields-StaysHoused}
use mmu.Data.Housed.Writes.{written-out, written-l1, write_meta-entry_self, touch_block-entry_tier}

-- A block that has been placed is at L1, or not resident.
module _ (i : ℕ) (rt : Runtime) where
  tiered-l1 :
      tier_of
        (entry (touch_block (pos i) (write_meta (pos i) (λ meta. record meta { tier = l1 }) rt)) i)
      ≡ l1
  tiered-l1 =
      touch_block-entry_tier i (write_meta (pos i) (λ meta. record meta { tier = l1 }) rt) i
      ∙ ap tier_of (write_meta-entry_self i _ rt)
      ∙ written-l1 _ (entry rt i) (λ m. refl)

admit_fresh-l1 : (i : ℕ) (rt : Runtime) → tier_of (entry (admit_fresh (pos i) rt) i) ≡ l1
unfolding admit_fresh
admit_fresh-l1 i rt = elim (Bool-cases (is_resident (block_meta_for (pos i) rt))) [
  | inl t ↦ rw t (tiered-l1 i rt)
  | inr f ↦ rw f (
      tiered-l1 i (
        one_more (
          write_meta (pos i) (λ meta. record meta { resident_in_l1 = true; l1_frame_id = pos i })
            rt)))
]

park_fresh-out : (i : ℕ) (rt : Runtime) → is_resident (entry (park_fresh (pos i) rt) i) ≡ false
unfolding park_fresh
park_fresh-out i rt =
    ap is_resident (write_meta-entry_self i _ rt) ∙ written-out _ (entry rt i) (λ m. refl)

place_fresh-l1 :
    (i : ℕ) (m : Option BlockMeta) (rt : Runtime)
    → block_meta_for (pos i) rt ≡ m
    → is_resident (entry (place_fresh m (pos i) rt) i) ≡ true
    → tier_of (entry (place_fresh m (pos i) rt) i) ≡ l1
place_fresh-l1 i none rt e r = ap tier_of (sym (get-at rt.block_directory i) ∙ e)
place_fresh-l1 i (some m) rt e r = elim (Bool-cases (ltb rt.resident_count rt.resident_limit)) [
  | inl t ↦ rw t (admit_fresh-l1 i rt)
  | inr f ↦ absurd (
      cc (
        subst
            (λ b.
              is_resident (entry (if b then admit_fresh (pos i) rt else park_fresh (pos i) rt) i)
              ≡ true)
            f r,
        park_fresh-out i rt,
      ))
]

-- What the reset leaves of the pools.
reset-owner : (i : ℕ) (rt : Runtime) → owner (reset_block_data (pos i) rt).l1_pool i ≡ none
unfolding reset_block_data
reset-owner i rt = release_page-owner rt.l1_pool i

reset-owner_ne :
    (i j : ℕ) (rt : Runtime)
    → (i == j) ≡ false
    → owner (reset_block_data (pos i) rt).l1_pool j ≡ owner rt.l1_pool j
unfolding reset_block_data
reset-owner_ne i j rt ne = release_page-owner_ne rt.l1_pool i j ne

place_fresh-config :
    (m : Option BlockMeta) (i : ℕ) (rt : Runtime) → (place_fresh m (pos i) rt).config ≡ rt.config
unfolding admit_fresh park_fresh touch_block
place_fresh-config none i rt = refl
place_fresh-config (some m) i rt = ground arith

reset-config : (i : ℕ) (rt : Runtime) → (reset_block_data (pos i) rt).config ≡ rt.config
unfolding reset_block_data
reset-config i rt = refl

registered-StaysHoused : (i : ℕ) (rt : Runtime) → StaysHoused rt (register_fresh_block (pos i) rt)
unfolding register_fresh_block
registered-StaysHoused i rt g =
    all_but-IsHoused i rt last (register_fresh_block-Zeroed i rt g.apart).zeroed_apart
      (ap (λ c. c.block_size_bytes) (place_fresh-config m i fresh ∙ reset-config i opened))
      (λ j ne.
        let at : entry last j ≡ entry rt j =
          place_fresh-other i j ne m fresh
          ∙ reset_block_data-other i j ne opened
          ∙ opened-other i j ne rt in
        record {
          same_resident = ap is_resident at;
          same_tier = ap tier_of at;
          same_l1 =
              ap (λ p. owner p j) (place_fresh-pools Pool.l1_pool m i fresh)
              ∙ reset-owner_ne i j opened ne;
          same_l2 = λ k lt.
              ap (λ p. content p j k) (place_fresh-pools Pool.l2_pool m i fresh)
              ∙ ap (λ f. f k) (reset_pages i opened Pool.l2_pool j ne);
        })
      (record {
        at_l1 = place_fresh-l1 i m fresh refl;
        blank = λ r o k lt.
            ap (λ p. content p i k) (place_fresh-pools Pool.l2_pool m i fresh)
            ∙ ap (λ f. f k) (reset-zero Pool.l2_pool i opened);
        no_page = λ r.
            ap (λ p. owner p i) (place_fresh-pools Pool.l1_pool m i fresh) ∙ reset-owner i opened;
      })
      g
  where
    opened : Runtime
    opened = directory (λ d. BlockDirectory.initialize_fresh_block d (pos i)) rt

    fresh : Runtime
    fresh = reset_block_data (pos i) opened

    m : Option BlockMeta
    m = block_meta_for (pos i) fresh

    last : Runtime
    last = place_fresh m (pos i) fresh

pub register_fresh_block-StaysHoused :
    (id : ℤ) (rt : Runtime) → StaysHoused rt (register_fresh_block id rt)
unfolding register_fresh_block reset_block_data release_page BlockDirectory.initialize_fresh_block
    BlockDirectory.mutable_get BlockDirectory.get
register_fresh_block-StaysHoused (pos i) rt g = registered-StaysHoused i rt g
register_fresh_block-StaysHoused (negsuc n) rt g =
    fields-StaysHoused rt (register_fresh_block (negsuc n) rt) refl (by_pool _ refl refl) refl g
