-- ===== src/Settled/Steps.antt =====
-- EnsureResidentInL1 and MoveBlockToL2 keep a runtime settled.
use mmu.Prelude.{
  ℕ, ◌<◌, ℤ, pos, negsuc, ◌==◌, ltb, true, false, some, ◌≡◌, refl, ap, ◌∙◌, inl, inr, arith, length,
  get_elem?, get_elem?-some, lt_of_get_elem?, Bool-cases,
}
use mmu.Types.{Result, ok, err, stuck, l2}
use mmu.Exec.{◌>>=◌}
use mmu.Exec.Returns.{returns}
use mmu.BlockManager
use mmu.BlockManager.{count_at}
use mmu.BlockDirectory.Writes.{get-at}
use mmu.Runtime.{Runtime, block_meta_for, write_meta}
use mmu.Frame.{Frames}
use mmu.Frame.Residency.{ensure_resident_in_l1-Frames, move_block_to_l2-Frames}
use mmu.Residency.{
  ensure_resident_in_l1, reclaim_unused_resident_blocks, is_allocated, move_block_to_l2,
  is_resident,
}
use mmu.Residency.Calm.{flags}
use mmu.Residency.Promotion.{Brings}
use mmu.ChunkPool.{release_page}
use mmu.Residency.Flags.{mutable_get-flags_same}
use mmu.Residency.Reclaim.{get-flag}
use mmu.Residency.Eviction.{Evicting, move_block_to_l2-Evicting}
use mmu.Residency.Room.{Evicted-Shrinks}
use mmu.Residency.Bounds.{ensure_resident_in_l1-Brings}
use mmu.Residency.Vacant.{reclaim-Vacant}
use mmu.Settled.{Settled, Calm-SettledBut, Shrinks-SettledBut, reclaim-Settled}
use mmu.Settled.Rules.{Settles}

-- Bringing a block that has a reference.
brought-Settled :
    (i : ℕ) (rt : Runtime) (r : Result (Unit {0})) (rt' : Runtime)
    → Settled rt
    → 0 < count_at rt.l1_allocator i
    → Frames rt rt'
    → Brings (pos i) rt r rt'
    → Settled rt'
brought-Settled i rt r rt' h used f b = record {
  loose = record {
    bounded = b.bounded;
    valid = rw f.same_allocator h.loose.valid;
    blocks = rw f.same_allocator (b.brings_blocks ∙ h.loose.blocks);
    capacity = rw (f.same_allocator, f.same_config) h.loose.capacity;
  };
  backed = λ j ne res. rw f.same_allocator (elim (Bool-cases (i == j)) [
    | inl e ↦ let same : i ≡ j = ground arith in rw (← same) used
    | inr other ↦
        let (v, e) =
          get_elem?-some (flags rt) j
            (omega (arith, lt_of_get_elem? (flags rt') j res, b.brings_blocks)) in
        elim (Bool-cases v) [
          | inl t ↦ h.backed j refl (e ∙ ap some t)
          | inr out ↦ absurd (ground (arith, b.others_out j other (e ∙ ap some out), res))
        ]
  ]);
}

-- A block without references is not allocated once the unused blocks are reclaimed.
unused_fails :
    (i : ℕ) (rt : Runtime)
    → Settled rt
    → count_at rt.l1_allocator i ≡ 0
    → Settled (ensure_resident_in_l1 (pos i) rt).1
unfolding ensure_resident_in_l1 ◌>>=◌ BlockManager.is_valid BlockManager.ref_count
unused_fails i rt h e = elim (Bool-cases (ltb i (length rt.l1_allocator.ref_counts))) [
  | inr f ↦ rw f h
  | inl t ↦
      let vacant =
        reclaim-Vacant rt i (ground (arith, t, h.loose.capacity)) (ground (arith, t, e)) in
      let refused : is_allocated (block_meta_for (pos i) (reclaim_unused_resident_blocks rt))
          ≡ false =
        ap is_allocated (get-at (reclaim_unused_resident_blocks rt).block_directory i) ∙ vacant in
      rw (t, refused) (reclaim-Settled rt h.loose)
]

ensure_resident_in_l1-Settled :
    (id : ℤ) (rt : Runtime) → Settled rt → Settled (ensure_resident_in_l1 id rt).1
unfolding ensure_resident_in_l1 ◌>>=◌ BlockManager.is_valid
ensure_resident_in_l1-Settled (negsuc n) rt h = h
ensure_resident_in_l1-Settled (pos i) rt h = elim (Bool-cases (count_at rt.l1_allocator i == 0)) [
  | inl e ↦ unused_fails i rt h (ground (arith, e))
  | inr e ↦
      brought-Settled i rt _ _ h (ground (arith, e)) ((ensure_resident_in_l1-Frames (pos i)).at rt)
        (ensure_resident_in_l1-Brings (pos i) rt h.loose.bounded)
]

pub ensure_resident_in_l1-Settles : (id : ℤ) → Settles (ensure_resident_in_l1 id)
ensure_resident_in_l1-Settles id = record {
  settles = λ rt h. (
    ensure_resident_in_l1-Settled id rt h,
    (ensure_resident_in_l1-Brings id rt h.loose.bounded).brings_back,
  );
}

-- MoveBlockToL2 of a block that is resident, and of one that is not.
Evicting-settles :
    (i : ℕ) (rt : Runtime) (r : Result (Unit {0})) (rt' : Runtime)
    → Settled rt
    → Frames rt rt'
    → get_elem? (flags rt) i ≡ some true
    → Evicting i rt r rt'
    → Settled rt' × (returns r ≡ true)
Evicting-settles i rt (ok u) rt' h f at e = (
  Shrinks-SettledBut (negsuc 0) rt rt' h f (Evicted-Shrinks i rt rt' h.loose.bounded.counted at e),
  refl,
)
Evicting-settles i rt (err x) rt' h f at e = (Calm-SettledBut (negsuc 0) rt rt' h f e, refl)
Evicting-settles i rt stuck rt' h f at e = absurd (cc)

-- What the call leaves of a block that is not resident.
abbrev parked : ℕ → Runtime → Runtime
parked i rt =
    write_meta (pos i) (λ meta. record meta { tier = l2 })
      (record rt { l1_pool = release_page rt.l1_pool (pos i) })

parked-Settled : (i : ℕ) (rt : Runtime) → Settled rt → Settled (parked i rt)
parked-Settled i rt h = Calm-SettledBut (negsuc 0) rt (parked i rt) h (ground arith) (record {
  same_flags = mutable_get-flags_same rt.block_directory (pos i) _ (λ m. refl);
  calm_count = refl;
  calm_limit = refl;
})

move_out-settles :
    (i : ℕ) (rt : Runtime)
    → Settled rt
    → is_resident (block_meta_for (pos i) rt) ≡ false
    → Settled (move_block_to_l2 (pos i) rt).1 × (returns (move_block_to_l2 (pos i) rt).0 ≡ true)
unfolding move_block_to_l2 ◌>>=◌
move_out-settles i rt h out = elim (Bool-cases (BlockManager.is_valid rt.l1_allocator (pos i))) [
  | inr f ↦ rw f (h, refl)
  | inl v ↦ elim (Bool-cases (is_allocated (block_meta_for (pos i) rt))) [
    | inr f ↦ rw (v, f) (h, refl)
    | inl a ↦ rw (v, a, out) (parked-Settled i rt h, refl)
  ]
]

move_valid-settles :
    (i : ℕ) (rt : Runtime)
    → Settled rt
    → Settled (move_block_to_l2 (pos i) rt).1 × (returns (move_block_to_l2 (pos i) rt).0 ≡ true)
move_valid-settles i rt h = elim (Bool-cases (is_resident (block_meta_for (pos i) rt))) [
  | inr out ↦ move_out-settles i rt h out
  | inl res ↦
      let at : get_elem? (flags rt) i ≡ some true = ground (arith, get-flag rt i, res) in
      Evicting-settles i rt _ _ h ((move_block_to_l2-Frames (pos i)).at rt) at
        (move_block_to_l2-Evicting i rt at)
]

move_block_to_l2-settles :
    (id : ℤ) (rt : Runtime)
    → Settled rt
    → Settled (move_block_to_l2 id rt).1 × (returns (move_block_to_l2 id rt).0 ≡ true)
unfolding move_block_to_l2 ◌>>=◌ BlockManager.is_valid
move_block_to_l2-settles (negsuc n) rt h = (h, refl)
move_block_to_l2-settles (pos i) rt h = move_valid-settles i rt h

pub move_block_to_l2-Settles : (id : ℤ) → Settles (move_block_to_l2 id)
move_block_to_l2-Settles id = record { settles = move_block_to_l2-settles id }
