-- ===== src/Residency/Bounds.antt =====
-- EnsureResidentInL1 as a whole: reclaiming, making room and promotion.
use mmu.Prelude.{
  ℕ, ℤ, pos, negsuc, ◌≡◌, refl, ap, ◌∙◌, true, some, get_elem?, Bool-cases, inl, inr, length,
  Option-cases,
}
use mmu.Types.{l1}
use mmu.Exec.{◌>>=◌}
use mmu.BlockManager
use mmu.Runtime.{Runtime, block_meta_for, write_meta, touch_block}
use mmu.Residency.{reclaim_unused_resident_blocks, keep_resident, ensure_resident_in_l1}
use mmu.Residency.Flags.{flag_of}
use mmu.Residency.Calm.{flags, Calm, Calm-trans, write_meta-Calm, touch_block-Calm}
use mmu.Residency.Room.{Shrinks, Shrinks-refl, Calm-Shrinks}
use mmu.Residency.Reclaim.{reclaim-Shrinks, get-flag}
use mmu.Residency.Promotion.{
  IsBounded, Shrinks-IsBounded, Brings, Brings-after, fails, flag-is_resident, promote-Brings,
}

keep_resident-Brings :
    (i : ℕ) (rt : Runtime)
    → IsBounded rt
    → get_elem? (flags rt) i ≡ some true
    → Brings (pos i) rt (keep_resident (pos i) rt).0 (keep_resident (pos i) rt).1
unfolding keep_resident ◌>>=◌
keep_resident-Brings i rt b h = record {
  bounded = Shrinks-IsBounded rt kept b (Calm-Shrinks rt kept b.counted calm);
  brings_back = refl;
  arrives = λ _. flag-is_resident kept i (ap (λ fs. get_elem? fs i) calm.same_flags ∙ h);
  others_out = λ j ne out. ap (λ fs. get_elem? fs j) calm.same_flags ∙ out;
  brings_blocks = ap length calm.same_flags;
}
  where
    kept : Runtime
    kept = write_meta (pos i) (λ meta. record meta { tier = l1 }) (touch_block (pos i) rt)

    calm : Calm rt kept
    calm =
        Calm-trans rt (touch_block (pos i) rt) kept (touch_block-Calm (pos i) rt)
          (write_meta-Calm (pos i) _ (touch_block (pos i) rt) (λ m. refl))

ensure_valid :
    (i : ℕ) (rt : Runtime)
    → IsBounded rt
    → Brings (pos i) rt (ensure_resident_in_l1 (pos i) rt).0 (ensure_resident_in_l1 (pos i) rt).1
unfolding ensure_resident_in_l1 ◌>>=◌
ensure_valid i rt b = elim (Bool-cases (BlockManager.is_valid rt.l1_allocator (pos i))) [
  | inr f ↦ rw f (fails (pos i) _ rt rt b (Shrinks-refl rt b.counted))
  | inl v ↦ elim (Option-cases (block_meta_for (pos i) lean)) [
    | inl e ↦ rw (v, e) (fails (pos i) _ rt lean b shrinks)
    | inr (m, e) ↦ elim (Bool-cases m.allocated) [
      | inr f ↦ rw (v, e, f) (fails (pos i) _ rt lean b shrinks)
      | inl a ↦ elim (Bool-cases m.resident_in_l1) [
        | inl t ↦
            rw (v, e, a, t)
              (Brings-after (pos i) rt lean _ _ shrinks (
                keep_resident-Brings i lean lean-IsBounded
                  (get-flag lean i ∙ ap flag_of e ∙ ap some t)))
        | inr f ↦
            rw (v, e, a, f)
              (Brings-after (pos i) rt lean _ _ shrinks
                (promote-Brings i lean lean-IsBounded (get-flag lean i ∙ ap flag_of e ∙ ap some f)))
      ]
    ]
  ]
]
  where
    lean : Runtime
    lean = reclaim_unused_resident_blocks rt

    shrinks : Shrinks rt lean
    shrinks = reclaim-Shrinks rt b.counted

    lean-IsBounded : IsBounded lean
    lean-IsBounded = Shrinks-IsBounded rt lean b shrinks

-- If the count of resident blocks is right, and at most the limit, then so it is after
-- EnsureResidentInL1, whatever its result is. The fuel is enough: it returns, and on success the
-- block is resident in L1. No other block has become resident.
pub ensure_resident_in_l1-Brings :
    (id : ℤ) (rt : Runtime)
    → IsBounded rt
    → Brings id rt (ensure_resident_in_l1 id rt).0 (ensure_resident_in_l1 id rt).1
unfolding ensure_resident_in_l1 ◌>>=◌ BlockManager.is_valid
ensure_resident_in_l1-Brings (pos i) rt b = ensure_valid i rt b
ensure_resident_in_l1-Brings (negsuc n) rt b =
    fails (negsuc n) _ rt rt b (Shrinks-refl rt b.counted)
