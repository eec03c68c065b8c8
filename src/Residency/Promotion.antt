-- ===== src/Residency/Promotion.antt =====
-- The promotion of a block to L1: making room, the copy, and the flag.
use mmu.Prelude.{
  get_elem?-set_ne, ◌==ℤ◌, length-set, ℕ, suc, ◌<◌, ◌≤◌, ℤ, pos, ◌≡◌, refl, ap, ◌∙◌, arith, true,
  false, some, get_elem?, set, get_elem?-set_self, lt_of_get_elem?, tally, List, [], ◌∷◌, length,
  tally-le-length, u32_mod, tally-set,
}
use mmu.Types.{Result, ok, err, l1, Error}
use mmu.Exec.{◌>>=◌}
use mmu.Exec.Returns.{came, with_value, with_error, returns}
use mmu.BlockDirectory.{BlockMeta}
use mmu.Runtime.{Runtime, block_meta_for, write_meta, touch_block}
use mmu.Paging.{sync_l2_to_l1}
use mmu.Residency.{evict_while_full, promote, is_resident, one_more}
use mmu.Residency.Flags.{flags_of, mutable_get-flags}
use mmu.Residency.Calm.{flags, Calm, touch_block-Calm, sync_l2_to_l1-Calm, sync_l2_to_l1-Returns}
use mmu.Residency.Eviction.{Counted, is_set}
use mmu.Residency.Room.{Shrinks, Shrinks-trans, Calm-Shrinks, Room, evict_while_full-Room}
use mmu.Residency.Reclaim.{get-flag}

-- The count of resident blocks is right and does not exceed the limit, which is a uint32_t.
pub record IsBounded (rt : Runtime) : Type 0 where
  pub counted : Counted rt
  pub within : rt.resident_count ≤ rt.resident_limit
  pub narrow : rt.resident_limit < u32_mod

pub Shrinks-IsBounded : (a b : Runtime) → IsBounded a → Shrinks a b → IsBounded b
Shrinks-IsBounded a b h s = record {
  counted = s.still_counted;
  within = omega (arith, h.within, s.no_more, s.shrinks_limit);
  narrow = omega (arith, h.narrow, s.shrinks_limit);
}

-- What a call that brings block `id` to L1 has done, by its result.
pub record Brings (id : ℤ) (rt : Runtime) (r : Result (Unit {0})) (rt' : Runtime) : Type 0 where
  pub bounded : IsBounded rt'
  pub brings_back : returns r ≡ true
  pub arrives : r ≡ ok tt → is_resident (block_meta_for id rt') ≡ true
  pub others_out :
      (j : ℕ)
      → (id ==ℤ pos j) ≡ false
      → get_elem? (flags rt) j ≡ some false
      → get_elem? (flags rt') j ≡ some false
  pub brings_blocks : length (flags rt') ≡ length (flags rt)

pub fails :
    (id : ℤ) (e : Error) (rt rt' : Runtime)
    → IsBounded rt
    → Shrinks rt rt'
    → Brings id rt (err e) rt'
fails id e rt rt' b s = record {
  bounded = Shrinks-IsBounded rt rt' b s;
  brings_back = refl;
  arrives = λ eq. absurd (cc);
  others_out = λ j ne out. s.stays_out j out;
  brings_blocks = s.same_blocks;
}

-- Steps that make no block resident may come first.
pub Brings-after :
    (id : ℤ) (a b : Runtime) (r : Result (Unit {0})) (c : Runtime)
    → Shrinks a b
    → Brings id b r c
    → Brings id a r c
Brings-after id a b r c s h = record {
  bounded = h.bounded;
  brings_back = h.brings_back;
  arrives = h.arrives;
  others_out = λ j ne out. h.others_out j ne (s.stays_out j out);
  brings_blocks = h.brings_blocks ∙ s.same_blocks;
}

-- The end of EnsureResidentInL1 after the copy to L1.
abbrev pub settle : ℕ → Runtime → Runtime
settle i rt = touch_block (pos i) (
    one_more (
      write_meta (pos i)
        (λ meta. record meta { resident_in_l1 = true; l1_frame_id = pos i; tier = l1 }) rt))

pub settle-flags : (i : ℕ) (rt : Runtime) → flags (settle i rt) ≡ set (flags rt) i true
settle-flags i rt =
    (touch_block-Calm (pos i) before).same_flags
    ∙ mutable_get-flags rt.block_directory i _ true (λ m. refl)
  where
    before : Runtime
    before = one_more (
        write_meta (pos i)
          (λ meta. record meta { resident_in_l1 = true; l1_frame_id = pos i; tier = l1 }) rt)

pub flag-is_resident :
    (rt : Runtime) (i : ℕ)
    → get_elem? (flags rt) i ≡ some true
    → is_resident (block_meta_for (pos i) rt) ≡ true
flag-is_resident rt i h = ground (arith, get-flag rt i, h)

settle-Brings :
    (i : ℕ) (rt : Runtime)
    → IsBounded rt
    → get_elem? (flags rt) i ≡ some false
    → rt.resident_count < rt.resident_limit
    → Brings (pos i) rt (ok tt) (settle i rt)
unfolding touch_block
settle-Brings i rt b out lt = record {
  bounded = record {
    counted =
        let moved = tally-set is_set (flags rt) i true false out in
        let same = ap (tally is_set) (settle-flags i rt) in
        omega (arith, moved, same, b.counted, b.narrow, lt);
    within = omega (arith, lt, b.narrow);
    narrow = b.narrow;
  };
  brings_back = refl;
  arrives = λ _. flag-is_resident (settle i rt) i (
      ap (λ fs. get_elem? fs i) (settle-flags i rt)
      ∙ get_elem?-set_self (flags rt) i true (lt_of_get_elem? (flags rt) i out));
  others_out = λ j ne h.
      ap (λ fs. get_elem? fs j) (settle-flags i rt)
      ∙ get_elem?-set_ne (flags rt) i j true (ground arith)
      ∙ h;
  brings_blocks = ap length (settle-flags i rt) ∙ length-set (flags rt) i true;
}

length-flags_of : (ms : List BlockMeta) → length (flags_of ms) ≡ length ms
length-flags_of [] = refl
length-flags_of (m ∷ ms) = ap suc (length-flags_of ms)

Counted-fuel :
    (rt : Runtime) → Counted rt → rt.resident_count < suc (length rt.block_directory.metas)
Counted-fuel rt c =
    omega (arith, c, tally-le-length is_set (flags rt), length-flags_of rt.block_directory.metas)

pub promote-Brings :
    (i : ℕ) (rt : Runtime)
    → IsBounded rt
    → get_elem? (flags rt) i ≡ some false
    → Brings (pos i) rt (promote (pos i) rt).0 (promote (pos i) rt).1
unfolding promote ◌>>=◌
promote-Brings i rt b out = elim (came (evict_while_full blocks (pos i) rt).0 room.comes_back) [
  | with_error x e ↦ rw e (fails (pos i) x rt roomy b room.shrinks)
  | with_value u e ↦
      elim (came (sync_l2_to_l1 (pos i) roomy).0 ((sync_l2_to_l1-Returns (pos i)).from roomy)) [
        | with_error x f ↦ rw (e, f) (fails (pos i) x rt copied b both)
        | with_value v f ↦
            rw (e, f)
              (Brings-after (pos i) rt copied (ok tt) _ both (
                settle-Brings i copied copied-IsBounded (both.stays_out i out)
                  (omega (arith, room.has_room e, copy-Calm.calm_count, copy-Calm.calm_limit))))
      ]
]
  where
    blocks : ℕ
    blocks = suc (length rt.block_directory.metas)

    roomy : Runtime
    roomy = (evict_while_full blocks (pos i) rt).1

    copied : Runtime
    copied = (sync_l2_to_l1 (pos i) roomy).1

    room : Room rt (evict_while_full blocks (pos i) rt).0 roomy
    room = evict_while_full-Room blocks (pos i) rt b.counted (Counted-fuel rt b.counted)

    copy-Calm : Calm roomy copied
    copy-Calm = (sync_l2_to_l1-Calm (pos i)).at roomy

    both : Shrinks rt copied
    both =
        Shrinks-trans rt roomy copied room.shrinks
          (Calm-Shrinks roomy copied room.shrinks.still_counted copy-Calm)

    copied-IsBounded : IsBounded copied
    copied-IsBounded = Shrinks-IsBounded rt copied b both
