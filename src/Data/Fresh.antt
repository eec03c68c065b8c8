-- ===== src/Data/Fresh.antt =====
-- A block that is handed out reads as zeros.
use mmu.Prelude.{
  inc64, ℕ, pos, ◌≡◌, refl, ap, ◌∙◌, arith, true, false, Option, none, some, ◌==◌, get_elem?, ltb,
  Bool-cases, inl, inr,
}
use mmu.BlockDirectory
use mmu.BlockDirectory.{BlockMeta}
use mmu.BlockDirectory.Writes.{mutable_get-at, initialize-at}
use mmu.Types.{l1}
use mmu.ChunkPool.{zero_page}
use mmu.Runtime.{Runtime, Pool, pool_of, block_meta_for, directory, write_meta, touch_block}
use mmu.Paging.Pages.{content, release_page-zero}
use mmu.Residency.{
  reset_block_data, register_fresh_block, admit_fresh, park_fresh, place_fresh, is_resident,
  cleared, one_more,
}
use mmu.Residency.Flags.{get_elem?-flags_of}
use mmu.Residency.Calm.{flags}
use mmu.Data.{Apart}
use mmu.Data.Moves.{home, block_data}
use mmu.Data.Reclaim.{reset_pages, reset-Apart}

-- Block `i` holds zeros, and the bytes of the others are the same.
pub record Zeroed (i : ℕ) (a b : Runtime) : Type 0 where
  pub zeroed_apart : Apart b
  pub reads_zero : block_data b i ≡ zero_page
  pub others_same : (j : ℕ) → (i == j) ≡ false → block_data b j ≡ block_data a j

same_flag :
    (a b : Runtime) (j : ℕ)
    → get_elem? b.block_directory.metas j ≡ get_elem? a.block_directory.metas j
    → get_elem? (flags b) j ≡ get_elem? (flags a) j
same_flag a b j h = ground (
  arith,
  h,
  get_elem?-flags_of a.block_directory.metas j,
  get_elem?-flags_of b.block_directory.metas j,
)

-- A block's entry in the directory.
abbrev pub entry : Runtime → ℕ → Option BlockMeta
entry rt j = get_elem? rt.block_directory.metas j

module _ (i j : ℕ) (ne : (i == j) ≡ false) where
  write_meta-other :
      (f : BlockMeta → BlockMeta) (rt : Runtime) → entry (write_meta (pos i) f rt) j ≡ entry rt j
  write_meta-other f rt = ground (arith, mutable_get-at rt.block_directory i j f)

  touch_block-other : (rt : Runtime) → entry (touch_block (pos i) rt) j ≡ entry rt j
  unfolding touch_block BlockDirectory.set_last_access_epoch
  touch_block-other rt =
      write_meta-other (λ meta. record meta { last_access_epoch = inc64 rt.epoch }) rt

  admit_fresh-other : (rt : Runtime) → entry (admit_fresh (pos i) rt) j ≡ entry rt j
  unfolding admit_fresh
  admit_fresh-other rt = elim (Bool-cases (is_resident (block_meta_for (pos i) rt))) [
    | inl t ↦ rw t (tiered rt)
    | inr f ↦ rw f (
        tiered (
          one_more (
            write_meta (pos i) (λ meta. record meta { resident_in_l1 = true; l1_frame_id = pos i })
              rt))
        ∙ write_meta-other (λ meta. record meta { resident_in_l1 = true; l1_frame_id = pos i }) rt)
  ]
    where
      tiered :
          (s : Runtime)
          → entry (touch_block (pos i) (write_meta (pos i) (λ meta. record meta { tier = l1 }) s)) j
            ≡ entry s j
      tiered s =
          touch_block-other (write_meta (pos i) (λ meta. record meta { tier = l1 }) s)
          ∙ write_meta-other (λ meta. record meta { tier = l1 }) s

  pub place_fresh-other :
      (m : Option BlockMeta) (rt : Runtime) → entry (place_fresh m (pos i) rt) j ≡ entry rt j
  unfolding park_fresh
  place_fresh-other none rt = refl
  place_fresh-other (some m) rt = elim (Bool-cases (ltb rt.resident_count rt.resident_limit)) [
    | inl t ↦ rw t (admit_fresh-other rt)
    | inr f ↦ rw f (write_meta-other _ rt)
  ]

  pub reset_block_data-other : (rt : Runtime) → entry (reset_block_data (pos i) rt) j ≡ entry rt j
  unfolding reset_block_data
  reset_block_data-other rt = write_meta-other cleared rt

  pub opened-other :
      (rt : Runtime)
      → entry (directory (λ d. BlockDirectory.initialize_fresh_block d (pos i)) rt) j ≡ entry rt j
  opened-other rt = ground (arith, initialize-at rt.block_directory i j)

-- The pools are left alone by the choice between L1 and L2.
pub place_fresh-pools :
    (p : Pool) (m : Option BlockMeta) (i : ℕ) (rt : Runtime)
    → pool_of (place_fresh m (pos i) rt) p ≡ pool_of rt p
unfolding admit_fresh park_fresh touch_block
place_fresh-pools Pool.l1_pool none i rt = refl
place_fresh-pools Pool.l2_pool none i rt = refl
place_fresh-pools Pool.l1_pool (some m) i rt = ground arith
place_fresh-pools Pool.l2_pool (some m) i rt = ground arith

pub reset-zero :
    (p : Pool) (i : ℕ) (rt : Runtime)
    → content (pool_of (reset_block_data (pos i) rt) p) i ≡ zero_page
unfolding reset_block_data
reset-zero Pool.l1_pool i rt = release_page-zero rt.l1_pool i
reset-zero Pool.l2_pool i rt = release_page-zero rt.l2_pool i

-- If no page of either pool is used twice, then a block that is registered as fresh reads as zeros,
-- the bytes of every other block are the same, and again no page is used twice.
pub register_fresh_block-Zeroed :
    (i : ℕ) (rt : Runtime) → Apart rt → Zeroed i rt (register_fresh_block (pos i) rt)
unfolding register_fresh_block
register_fresh_block-Zeroed i rt h = record {
  zeroed_apart = λ p. rw (place_fresh-pools p m i fresh) (reset-Apart i opened h p);
  reads_zero =
      let at = home (get_elem? (flags (place_fresh m (pos i) fresh)) i) in
      rw (place_fresh-pools at m i fresh) (reset-zero at i opened);
  others_same = λ j ne.
      let same : get_elem? (flags (place_fresh m (pos i) fresh)) j ≡ get_elem? (flags rt) j =
        same_flag rt (place_fresh m (pos i) fresh) j (
          place_fresh-other i j ne m fresh
          ∙ reset_block_data-other i j ne opened
          ∙ opened-other i j ne rt) in
      let at = home (get_elem? (flags rt) j) in
      ap (λ f. content (pool_of (place_fresh m (pos i) fresh) (home f)) j) same
      ∙ ap (λ q. content q j) (place_fresh-pools at m i fresh)
      ∙ reset_pages i opened at j ne
      ∙ ap (λ q. content q j) (opened_pool at);
}
  where
    opened : Runtime
    opened = directory (λ d. BlockDirectory.initialize_fresh_block d (pos i)) rt

    fresh : Runtime
    fresh = reset_block_data (pos i) opened

    m : Option BlockMeta
    m = block_meta_for (pos i) fresh

    opened_pool : (p : Pool) → pool_of opened p ≡ pool_of rt p
    opened_pool Pool.l1_pool = refl
    opened_pool Pool.l2_pool = refl
