-- ===== src/Residency/Fresh.antt =====
-- RegisterFreshBlock: a new block goes to L1 if there is room.
use mmu.Prelude.{
  ℕ, ◌<◌, pos, ◌≡◌, refl, sym, ap, ◌∙◌, arith, true, false, some, get_elem?, set, Bool-cases, inl,
  inr, length, tally, Option-cases, tally-set, ltb,
}
use mmu.Types.{l1}
use mmu.BlockDirectory
use mmu.BlockDirectory.{BlockDirectory, BlockMeta, fresh_meta}
use mmu.Runtime.{Runtime, block_meta_for, write_meta, touch_block, directory}
use mmu.Residency.{
  reset_block_data, register_fresh_block, admit_fresh, park_fresh, place_fresh, cleared, one_more,
}
use mmu.Residency.Flags.{flags_of-set, set-same, mutable_get-flags}
use mmu.Residency.Calm.{flags, Calm, Calm-trans, write_meta-Calm, touch_block-Calm}
use mmu.Residency.Eviction.{is_set}
use mmu.Residency.Room.{Calm-Shrinks}
use mmu.Residency.Reclaim.{get-flag}
use mmu.Residency.Promotion.{IsBounded, Shrinks-IsBounded}

-- The block is in the directory, and its flag is clear.
module _ (i : ℕ) (rt : Runtime) (out : get_elem? (flags rt) i ≡ some false) where
  unresident : set (flags rt) i false ≡ flags rt
  unresident = set-same (flags rt) i false out

  pub initialize-Calm :
      Calm rt (directory (λ d. BlockDirectory.initialize_fresh_block d (pos i)) rt)
  unfolding BlockDirectory.initialize_fresh_block
  initialize-Calm = elim (Bool-cases (ltb i (length rt.block_directory.metas))) [
    | inl t ↦ record {
      same_flags = rw t (flags_of-set rt.block_directory.metas i fresh_meta ∙ unresident);
      calm_count = refl;
      calm_limit = refl;
    }
    | inr f ↦ record { same_flags = rw f refl; calm_count = refl; calm_limit = refl }
  ]

  reset-Calm : Calm rt (reset_block_data (pos i) rt)
  unfolding reset_block_data
  reset-Calm = record {
    same_flags = mutable_get-flags rt.block_directory i cleared false (λ m. refl) ∙ unresident;
    calm_count = refl;
    calm_limit = refl;
  }

  park-Calm : Calm rt (park_fresh (pos i) rt)
  unfolding park_fresh
  park-Calm = record {
    same_flags = mutable_get-flags rt.block_directory i _ false (λ m. refl) ∙ unresident;
    calm_count = refl;
    calm_limit = refl;
  }

-- Where a fresh block `i` has gone: to L1 just if there was room.
pub record Placed (i : ℕ) (rt rt' : Runtime) : Type 0 where
  pub placed_bounded : IsBounded rt'
  pub placed_flags : flags rt' ≡ set (flags rt) i (ltb rt.resident_count rt.resident_limit)
  pub placed_limit : rt'.resident_limit ≡ rt.resident_limit

abbrev admitted : ℕ → Runtime → Runtime
admitted i rt =
    one_more
      (write_meta (pos i) (λ meta. record meta { resident_in_l1 = true; l1_frame_id = pos i }) rt)

abbrev tiered : ℕ → Runtime → Runtime
tiered i rt = touch_block (pos i) (write_meta (pos i) (λ meta. record meta { tier = l1 }) rt)

tiered-Calm : (i : ℕ) (rt : Runtime) → Calm rt (tiered i rt)
tiered-Calm i rt =
    Calm-trans rt _ (tiered i rt)
      (write_meta-Calm (pos i) (λ meta. record meta { tier = l1 }) rt (λ m. refl))
      (touch_block-Calm (pos i) _)

admitted-flags : (i : ℕ) (rt : Runtime) → flags (admitted i rt) ≡ set (flags rt) i true
admitted-flags i rt = mutable_get-flags rt.block_directory i _ true (λ m. refl)

admitted-IsBounded :
    (i : ℕ) (rt : Runtime)
    → IsBounded rt
    → get_elem? (flags rt) i ≡ some false
    → rt.resident_count < rt.resident_limit
    → IsBounded (admitted i rt)
admitted-IsBounded i rt b out lt = record {
  counted = omega (
    arith,
    tally-set is_set (flags rt) i true false out,
    ap (tally is_set) (admitted-flags i rt),
    b.counted,
    b.narrow,
    lt,
  );
  within = omega (arith, lt, b.narrow);
  narrow = b.narrow;
}

admit_fresh-Placed :
    (i : ℕ) (rt : Runtime)
    → IsBounded rt
    → get_elem? (flags rt) i ≡ some false
    → ltb rt.resident_count rt.resident_limit ≡ true
    → Placed i rt (admit_fresh (pos i) rt)
unfolding admit_fresh
admit_fresh-Placed i rt b out room = elim (Option-cases (block_meta_for (pos i) rt)) [
  | inl e ↦ absurd (ground (arith, out, e, get-flag rt i))
  | inr (m, e) ↦
      let clear : m.resident_in_l1 ≡ false = ground (arith, out, e, get-flag rt i) in
      let calm : Calm (admitted i rt) (tiered i (admitted i rt)) = tiered-Calm i (admitted i rt) in
      let bounded : IsBounded (admitted i rt) =
        admitted-IsBounded i rt b out (ground (arith, room)) in
      rw (e, clear)
        (record {
          placed_bounded =
              Shrinks-IsBounded (admitted i rt) _ bounded
                (Calm-Shrinks (admitted i rt) _ bounded.counted calm);
          placed_flags = calm.same_flags ∙ admitted-flags i rt ∙ ap (set (flags rt) i) (sym room);
          placed_limit = calm.calm_limit;
        })
]

place_fresh-Placed :
    (i : ℕ) (rt : Runtime)
    → IsBounded rt
    → get_elem? (flags rt) i ≡ some false
    → Placed i rt (place_fresh (block_meta_for (pos i) rt) (pos i) rt)
place_fresh-Placed i rt b out = elim (Option-cases (block_meta_for (pos i) rt)) [
  | inl e ↦ absurd (ground (arith, out, e, get-flag rt i))
  | inr (m, e) ↦ elim (Bool-cases (ltb rt.resident_count rt.resident_limit)) [
    | inl t ↦ rw (e, t) (admit_fresh-Placed i rt b out t)
    | inr f ↦
        rw (e, f)
          (record {
            placed_bounded =
                Shrinks-IsBounded rt _ b (Calm-Shrinks rt _ b.counted (park-Calm i rt out));
            placed_flags =
                (park-Calm i rt out).same_flags
                ∙ sym (unresident i rt out)
                ∙ ap (set (flags rt) i) (sym f);
            placed_limit = (park-Calm i rt out).calm_limit;
          })
  ]
]

-- If the count of resident blocks is right and at most the limit, and block `i` is not resident,
-- then registering it as fresh keeps the count right and at most the limit. The block is then
-- resident in L1 just if there was room, and no other block's residency has changed.
pub register_fresh_block-Placed :
    (i : ℕ) (rt : Runtime)
    → IsBounded rt
    → get_elem? (flags rt) i ≡ some false
    → Placed i rt (register_fresh_block (pos i) rt)
unfolding register_fresh_block
register_fresh_block-Placed i rt b out =
    let p =
      place_fresh-Placed i fresh fresh-IsBounded
        (ap (λ fs. get_elem? fs i) calm.same_flags ∙ out) in
    record {
      placed_bounded = p.placed_bounded;
      placed_flags = p.placed_flags ∙ rw (calm.same_flags, calm.calm_count, calm.calm_limit) refl;
      placed_limit = p.placed_limit ∙ calm.calm_limit;
    }
  where
    opened : Runtime
    opened = directory (λ d. BlockDirectory.initialize_fresh_block d (pos i)) rt

    fresh : Runtime
    fresh = reset_block_data (pos i) opened

    opened-Calm : Calm rt opened
    opened-Calm = initialize-Calm i rt out

    calm : Calm rt fresh
    calm =
        Calm-trans rt opened fresh opened-Calm
          (reset-Calm i opened (ap (λ fs. get_elem? fs i) opened-Calm.same_flags ∙ out))

    fresh-IsBounded : IsBounded fresh
    fresh-IsBounded = Shrinks-IsBounded rt fresh b (Calm-Shrinks rt fresh b.counted calm)
