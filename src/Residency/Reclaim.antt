-- ===== src/Residency/Reclaim.antt =====
-- ReclaimUnusedResidentBlocks: the blocks without references are no longer resident.
use mmu.Prelude.{
  ℕ, zero, suc, ◌+◌, ◌<◌, ◌≤◌, ◌==◌, length-set, get_elem?-set_self, pos, ◌≡◌, refl, sym, ap, ◌∙◌,
  arith, false, none, some, get_elem?, set, Bool-cases, inl, inr, ltb, lt_of_get_elem?, List, [],
  ◌∷◌, length, Option-cases, ◌==ℤ◌,
}
use mmu.Exec.{or_same}
use mmu.BlockManager
use mmu.BlockDirectory
use mmu.BlockDirectory.{BlockDirectory, BlockMeta, default_meta}
use mmu.Runtime.{Runtime, block_meta_for, directory}
use mmu.Residency.{
  reset_block_data, forget_block, reclaim_block, reclaim_from, reclaim_unused_resident_blocks,
  cleared, one_fewer, is_resident,
}
use mmu.Frame.Residency.{reclaim_block-Frames}
use mmu.Residency.Flags.{
  flags_of, flags_of-set, set-same, set-out, get_elem?-flags_of, flag_of, mutable_get-flags,
}
use mmu.Residency.Calm.{flags, Calm}
use mmu.Residency.Eviction.{Counted, Evicted}
use mmu.Residency.Room.{Shrinks, Shrinks-refl, Shrinks-trans, Calm-Shrinks, Evicted-Shrinks}

set-set : {A : Type 0} (xs : List A) (i : ℕ) (a b : A) → set (set xs i a) i b ≡ set xs i b
set-set [] i a b = refl
set-set (x ∷ xs) zero a b = refl
set-set (x ∷ xs) (suc i) a b = ap (◌∷◌ x) (set-set xs i a b)

reset-flags :
    (d : BlockDirectory) (i : ℕ)
    → flags_of (BlockDirectory.reset d (pos i)).metas ≡ set (flags_of d.metas) i false
unfolding BlockDirectory.reset
reset-flags d i = elim (Bool-cases (ltb i (length d.metas))) [
  | inl t ↦ rw t (flags_of-set d.metas i default_meta)
  | inr f ↦
      let e : get_elem? d.metas i ≡ none = elim (Option-cases (get_elem? d.metas i)) [
        | inl e ↦ e
        | inr (m, e) ↦ absurd (ground (arith, lt_of_get_elem? d.metas i e, f))
      ] in
      rw f (sym (set-out (flags_of d.metas) i false (get_elem?-flags_of d.metas i ∙ ap flag_of e)))
]

-- The directory and the pools without the block.
abbrev pub dropped : ℕ → Runtime → Runtime
dropped i rt = directory (λ d. some (BlockDirectory.reset d (pos i))) (reset_block_data (pos i) rt)

pub dropped-flags : (i : ℕ) (rt : Runtime) → flags (dropped i rt) ≡ set (flags rt) i false
unfolding reset_block_data
dropped-flags i rt =
    reset-flags
      (or_same rt.block_directory (BlockDirectory.mutable_get rt.block_directory (pos i) cleared)) i
    ∙ ap (λ fs. set fs i false) (mutable_get-flags rt.block_directory i cleared false (λ m. refl))
    ∙ set-set (flags rt) i false false

dropped-Evicted : (i : ℕ) (rt : Runtime) → Evicted i rt (dropped i (one_fewer rt))
unfolding reset_block_data
dropped-Evicted i rt = record {
  cleared_flag = dropped-flags i (one_fewer rt);
  fewer = ground arith;
  evicted_limit = refl;
}

dropped-Calm : (i : ℕ) (rt : Runtime) → set (flags rt) i false ≡ flags rt → Calm rt (dropped i rt)
unfolding reset_block_data
dropped-Calm i rt h = record {
  same_flags = dropped-flags i rt ∙ h;
  calm_count = refl;
  calm_limit = refl;
}

pub get-flag : (rt : Runtime) (i : ℕ) → get_elem? (flags rt) i ≡ flag_of (block_meta_for (pos i) rt)
unfolding BlockDirectory.get
get-flag rt i = elim (Option-cases (get_elem? rt.block_directory.metas i)) [
  | inl e ↦ ground (arith, e, get_elem?-flags_of rt.block_directory.metas i)
  | inr (m, e) ↦ ground (
    arith,
    e,
    get_elem?-flags_of rt.block_directory.metas i,
    lt_of_get_elem? rt.block_directory.metas i e,
  )
]

forget_block-flags :
    (i : ℕ) (rt : Runtime) → flags (forget_block (pos i) rt) ≡ set (flags rt) i false
unfolding forget_block
forget_block-flags i rt = elim (Bool-cases (is_resident (block_meta_for (pos i) rt))) [
  | inl t ↦ rw t (dropped-flags i (one_fewer rt))
  | inr f ↦ rw f (dropped-flags i rt)
]

pub forget_block-Shrinks :
    (i : ℕ) (rt : Runtime) → Counted rt → Shrinks rt (forget_block (pos i) rt)
unfolding forget_block
forget_block-Shrinks i rt c = elim (Option-cases (block_meta_for (pos i) rt)) [
  | inl e ↦ rw e (
      Calm-Shrinks rt _ c
        (dropped-Calm i rt (set-out (flags rt) i false (get-flag rt i ∙ ap flag_of e))))
  | inr (m, e) ↦ elim (Bool-cases m.resident_in_l1) [
    | inl t ↦
        rw (e, t)
          (Evicted-Shrinks i rt _ c (get-flag rt i ∙ ap flag_of e ∙ ap some t)
            (dropped-Evicted i rt))
    | inr f ↦
        rw (e, f)
          (Calm-Shrinks rt _ c (
            dropped-Calm i rt
              (set-same (flags rt) i false (get-flag rt i ∙ ap flag_of e ∙ ap some f))))
  ]
]

reclaim_block-Shrinks : (i : ℕ) (rt : Runtime) → Counted rt → Shrinks rt (reclaim_block (pos i) rt)
unfolding reclaim_block
reclaim_block-Shrinks i rt c =
    elim (Bool-cases (BlockManager.ref_count rt.l1_allocator (pos i) ==ℤ pos 0)) [
      | inl t ↦ rw t (forget_block-Shrinks i rt c)
      | inr f ↦ rw f (Shrinks-refl rt c)
    ]

reclaim_from-Shrinks : (n i : ℕ) (rt : Runtime) → Counted rt → Shrinks rt (reclaim_from i n rt)
unfolding reclaim_from
reclaim_from-Shrinks zero i rt c = Shrinks-refl rt c
reclaim_from-Shrinks (suc n) i rt c =
    let s = reclaim_block-Shrinks i rt c in
    Shrinks-trans rt _ _ s (reclaim_from-Shrinks n (suc i) _ s.still_counted)

pub reclaim-Shrinks : (rt : Runtime) → Counted rt → Shrinks rt (reclaim_unused_resident_blocks rt)
unfolding reclaim_unused_resident_blocks
reclaim-Shrinks rt c = reclaim_from-Shrinks rt.config.l1_block_count 0 rt c

pub forget_block-clears :
    (i : ℕ) (rt : Runtime)
    → i < length (flags rt)
    → get_elem? (flags (forget_block (pos i) rt)) i ≡ some false
forget_block-clears i rt lt =
    ap (λ fs. get_elem? fs i) (forget_block-flags i rt) ∙ get_elem?-set_self (flags rt) i false lt

reclaim_block-length :
    (i : ℕ) (rt : Runtime) → length (flags (reclaim_block (pos i) rt)) ≡ length (flags rt)
unfolding reclaim_block
reclaim_block-length i rt =
    elim (Bool-cases (BlockManager.ref_count rt.l1_allocator (pos i) ==ℤ pos 0)) [
      | inl t ↦ rw t (ap length (forget_block-flags i rt) ∙ length-set (flags rt) i false)
      | inr f ↦ rw f refl
    ]

reclaim_block-clears :
    (i : ℕ) (rt : Runtime)
    → i < length (flags rt)
    → BlockManager.ref_count rt.l1_allocator (pos i) ≡ pos 0
    → get_elem? (flags (reclaim_block (pos i) rt)) i ≡ some false
unfolding reclaim_block
reclaim_block-clears i rt lt none_left = rw none_left (forget_block-clears i rt lt)

reclaim_from-clears :
    (n k i : ℕ) (rt : Runtime)
    → Counted rt
    → k ≤ i
    → i < k + n
    → i < length (flags rt)
    → BlockManager.ref_count rt.l1_allocator (pos i) ≡ pos 0
    → get_elem? (flags (reclaim_from k n rt)) i ≡ some false
unfolding reclaim_from
reclaim_from-clears zero k i rt c le lt inside none_left = absurd (omega arith)
reclaim_from-clears (suc n) k i rt c le lt inside none_left =
    let s = reclaim_block-Shrinks k rt c in
    elim (Bool-cases (i == k)) [
      | inl e ↦
          let same : k ≡ i = ground arith in
          (reclaim_from-Shrinks n (suc k) _ s.still_counted).stays_out i
            (rw same (reclaim_block-clears i rt inside none_left))
      | inr f ↦
          reclaim_from-clears n (suc k) i (reclaim_block (pos k) rt) s.still_counted (ground arith)
            (omega arith) (omega (arith, reclaim_block-length k rt))
            (ap (λ m. BlockManager.ref_count m (pos i))
                (reclaim_block-Frames (pos k) rt).same_allocator
              ∙ none_left)
    ]

-- If the count of resident blocks is right, and a block of the directory has no references, then
-- after reclaiming that block is not resident, the count is right and no larger, and no block has
-- become resident.
pub reclaim_unused_resident_blocks-clears :
    (rt : Runtime) (i : ℕ)
    → Counted rt
    → i < rt.config.l1_block_count
    → i < length (flags rt)
    → BlockManager.ref_count rt.l1_allocator (pos i) ≡ pos 0
    → (get_elem? (flags (reclaim_unused_resident_blocks rt)) i ≡ some false)
      × Shrinks rt (reclaim_unused_resident_blocks rt)
unfolding reclaim_unused_resident_blocks
reclaim_unused_resident_blocks-clears rt i c lt inside none_left = (
  reclaim_from-clears rt.config.l1_block_count 0 i rt c (omega arith) (omega arith) inside
      none_left,
  reclaim-Shrinks rt c,
)
