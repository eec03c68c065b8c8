-- ===== src/Data/Source.antt =====
-- Where a clone takes the bytes of a block from: the page that CloneBlockDataForCow chooses.
use mmu.Prelude.{
  ℕ, pos, ◌≡◌, refl, ap, ◌∙◌, Bool, true, false, ◌&&◌, Option, none, some, get_elem?, Bool-cases,
  Option-cases, inl, inr, ◌⊎◌, if◌then◌else◌,
}
use mmu.Types.{Tier, l1, PagePtr}
use mmu.ChunkPool.{owner, raw_page, bytes_or_zero, zero_page, Page}
use mmu.Runtime.{Runtime, Pool, pool_of, block_meta_for}
use mmu.Paging.Pages.{content, Same}
use mmu.Residency.{is_resident}
use mmu.Residency.Flags.{flag_of}
use mmu.Residency.Calm.{flags}
use mmu.Residency.Reclaim.{get-flag}
use mmu.Cow.{Source, cow_source, is_l1, or_else}
use mmu.Data.Moves.{home, block_data}

-- The bytes of block `i` stand where `tier` and its flag say: while it is resident its tier is L1,
-- and an L2 page behind a missing L1 page is blank; while it is not, it has no L1 page.
pub record IsHomed (i : ℕ) (tier : Tier) (rt : Runtime) : Type 0 where
  pub resident_tier : get_elem? (flags rt) i ≡ some true → tier ≡ l1
  pub blank_behind :
      get_elem? (flags rt) i ≡ some true
      → owner rt.l1_pool i ≡ none
      → Same rt.config.block_size_bytes (content rt.l2_pool i) zero_page
  pub no_l1 : home (get_elem? (flags rt) i) ≡ Pool.l2_pool → owner rt.l1_pool i ≡ none

-- The page that a source points to.
abbrev pub source_bytes : Runtime → Source → Page
source_bytes rt s = bytes_or_zero (pool_of rt s.0) s.1

-- What the directory says of a block, and the pool that has its bytes.
pub flag_cases :
    (i : ℕ) (rt : Runtime)
    → ((is_resident (block_meta_for (pos i) rt) ≡ true) × (get_elem? (flags rt) i ≡ some true))
      ⊎ ((is_resident (block_meta_for (pos i) rt) ≡ false)
          × (home (get_elem? (flags rt) i) ≡ Pool.l2_pool))
flag_cases i rt = elim (Option-cases (block_meta_for (pos i) rt)) [
  | inl e ↦ inr (rw e refl, ap home (get-flag rt i ∙ ap flag_of e))
  | inr (m, e) ↦ elim (Bool-cases m.resident_in_l1) [
    | inl t ↦ inl (rw e t, get-flag rt i ∙ ap flag_of e ∙ ap some t)
    | inr f ↦ inr (rw e f, ap home (get-flag rt i ∙ ap flag_of e ∙ ap some f))
  ]
]

pub cow_source-home :
    (i : ℕ) (tier : Tier) (rt : Runtime)
    → IsHomed i tier rt
    → Same rt.config.block_size_bytes
        (source_bytes rt (cow_source (pos i) tier rt))
        (block_data rt i)
unfolding cow_source raw_page bytes_or_zero
cow_source-home i tier rt h b lt = elim (flag_cases i rt) [
  | inl (t, flag) ↦
      let at : tier ≡ l1 = h.resident_tier flag in
      elim (Option-cases (owner rt.l1_pool i)) [
        | inr (q, e) ↦ rw (t, at, flag, e) refl
        | inl e ↦
            let blank = h.blank_behind flag e b lt in
            elim (Option-cases (owner rt.l2_pool i)) [
              | inr (q, g) ↦ rw (t, at, flag, e, g) (rw g at blank)
              | inl g ↦ rw (t, at, flag, e, g) refl
            ]
      ]
  | inr (f, flag) ↦
      let e : owner rt.l1_pool i ≡ none = h.no_l1 flag in
      elim (Option-cases (owner rt.l2_pool i)) [
        | inr (q, g) ↦ elim (Bool-cases (is_l1 tier)) [
          | inl y ↦ rw (y, f, flag, e, g) refl
          | inr y ↦ rw (y, flag, e, g) refl
        ]
        | inl g ↦ elim (Bool-cases (is_l1 tier)) [
          | inl y ↦ rw (y, f, flag, g, e) refl
          | inr y ↦ rw (y, flag, g, e) refl
        ]
      ]
]

-- The choice among the pages of a block in the two pools.
chosen :
    (b : Bool) (o1 o2 : Option PagePtr)
    → let s : Source =
        or_else
          (if b then (Pool.l1_pool, o1) else (Pool.l1_pool, none))
          (or_else (Pool.l2_pool, o2) (Pool.l1_pool, o1)) in
      (s ≡ (Pool.l1_pool, o1)) ⊎ (s ≡ (Pool.l2_pool, o2))
chosen true (some q) o2 = inl refl
chosen true none (some r) = inr refl
chosen true none none = inl refl
chosen false o1 (some r) = inr refl
chosen false o1 none = inl refl

pub cow_source-page :
    (i : ℕ) (tier : Tier) (rt : Runtime)
    → (p : Pool) × (cow_source (pos i) tier rt ≡ (p, owner (pool_of rt p) i))
unfolding cow_source raw_page
cow_source-page i tier rt =
    elim (chosen (is_l1 tier && is_resident (block_meta_for (pos i) rt)) (owner rt.l1_pool i)
      (owner rt.l2_pool i)) [ inl e ↦ (Pool.l1_pool, e) | inr e ↦ (Pool.l2_pool, e) ]
