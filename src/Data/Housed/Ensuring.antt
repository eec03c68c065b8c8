-- ===== src/Data/Housed/Ensuring.antt =====
-- EnsureResidentInL1 keeps every block housed.
use mmu.Prelude.{
  ℕ, ℤ, pos, negsuc, ◌≡◌, refl, sym, ap, ◌∙◌, false, Bool-cases, Option-cases, inl, inr,
}
use mmu.Types.{l1}
use mmu.Exec.{◌>>=◌}
use mmu.Exec.Keeps.{Keeps, keeps_rules}
use mmu.BlockManager
use mmu.BlockDirectory
use mmu.BlockDirectory.{BlockMeta}
use mmu.BlockDirectory.Writes.{written}
use mmu.Runtime.{Runtime, block_meta_for, write_meta}
use mmu.Residency.{
  is_resident, keep_resident, ensure_resident_in_l1, reclaim_unused_resident_blocks,
}
use mmu.Data.Moves.{home_of}
use mmu.Data.Sharing.{directory-StaysApart}
use mmu.Data.Housed.{entry, tier_of, IsHoused, StaysHoused, StaysHoused-order, all_but-IsHoused}
use mmu.Data.Housed.Writes.{
  written-l1, written-resident, write_meta-entry_self, write_meta-entry_ne, touch_block-StaysHoused,
}
use mmu.Data.Housed.Reclaim.{reclaim-StaysHoused}
use mmu.Data.Housed.Promotion.{promote-StaysHoused}

-- A block that is resident already.
tiered-StaysHoused :
    (i : ℕ) (rt : Runtime)
    → StaysHoused rt (write_meta (pos i) (λ meta. record meta { tier = l1 }) rt)
tiered-StaysHoused i rt g =
    all_but-IsHoused i rt (write_meta (pos i) (λ meta. record meta { tier = l1 }) rt)
      (directory-StaysApart
        (λ d. BlockDirectory.mutable_get d (pos i) (λ meta. record meta { tier = l1 })) rt g.apart)
      refl
      (λ j ne.
        let at = write_meta-entry_ne i (λ meta. record meta { tier = l1 }) rt j ne in
        record {
          same_resident = ap is_resident at;
          same_tier = ap tier_of at;
          same_l1 = refl;
          same_l2 = λ k lt. refl;
        })
      (record {
        at_l1 = λ r. ap tier_of here ∙ written-l1 _ (entry rt i) (λ m. refl);
        blank = λ r. (g.houses i).blank (sym flag ∙ r);
        no_page = λ r. (g.houses i).no_page (sym flag ∙ r);
      })
      g
  where
    here :
        entry (write_meta (pos i) (λ meta. record meta { tier = l1 }) rt) i
        ≡ written (λ meta. record meta { tier = l1 }) (entry rt i)
    here = write_meta-entry_self i (λ meta. record meta { tier = l1 }) rt

    flag :
        is_resident (entry (write_meta (pos i) (λ meta. record meta { tier = l1 }) rt) i)
        ≡ is_resident (entry rt i)
    flag =
        ap is_resident here
        ∙ written-resident (λ meta. record meta { tier = l1 }) (entry rt i) (λ m. refl)

keep_resident-StaysHoused : (i : ℕ) → Keeps StaysHoused (keep_resident (pos i))
unfolding keep_resident
keep_resident-StaysHoused i =
    search (keeps_rules, StaysHoused-order, touch_block-StaysHoused, tiered-StaysHoused) depth 12

pub ensure-StaysHoused :
    (i : ℕ) (rt : Runtime) → StaysHoused rt (ensure_resident_in_l1 (pos i) rt).1
unfolding ensure_resident_in_l1 ◌>>=◌
ensure-StaysHoused i rt g = elim (Bool-cases (BlockManager.is_valid rt.l1_allocator (pos i))) [
  | inr f ↦ rw f g
  | inl v ↦ elim (Option-cases (block_meta_for (pos i) left)) [
    | inl e ↦ rw (v, e) kept
    | inr (m, e) ↦ elim (Bool-cases m.allocated) [
      | inr f ↦ rw (v, e, f) kept
      | inl a ↦ elim (Bool-cases m.resident_in_l1) [
        | inl t ↦ rw (v, e, a, t) ((keep_resident-StaysHoused i).at left kept)
        | inr f ↦ rw (v, e, a, f) (promote-StaysHoused i left (home_of left i m false e f) kept)
      ]
    ]
  ]
]
  where
    left : Runtime
    left = reclaim_unused_resident_blocks rt

    kept : IsHoused left
    kept = reclaim-StaysHoused rt g

pub ensure_resident_in_l1-StaysHoused : (id : ℤ) → Keeps StaysHoused (ensure_resident_in_l1 id)
unfolding ensure_resident_in_l1 ◌>>=◌ BlockManager.is_valid
ensure_resident_in_l1-StaysHoused (pos i) = record { at = ensure-StaysHoused i }
ensure_resident_in_l1-StaysHoused (negsuc n) = record { at = λ rt g. g }
