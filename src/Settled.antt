-- ===== src/Settled.antt =====
-- The invariant of a runtime between calls: the count of resident blocks is right and within the
-- limit, and every resident block has a reference.
pub mod Rules
pub mod Steps
pub mod Paging
pub mod Blocks
pub mod Remap
pub mod Allocate
pub mod Calls
pub mod History
pub mod Guarantees
pub mod Batch
pub mod Stranded
pub mod Held
use mmu.Prelude.{
  ℕ, ◌+◌, ◌<◌, ℤ, pos, negsuc, ◌==ℤ◌, Bool, true, false, List, none, some, ◌≡◌, refl, sym, ap, ◌∙◌,
  inl, inr, arith, length, get_elem?, Bool-cases, Option-cases, lt_of_get_elem?, get_elem?-some,
  ◌==◌, if◌then◌else◌,
}
use mmu.Exec.{Exec}
use mmu.BlockManager
use mmu.BlockManager.{BlockManager, count_at}
use mmu.BlockManager.Invariant.{IsValid}
use mmu.Context.{Context, Session}
use mmu.Context.Spares.{Spares}
use mmu.Runtime.{Runtime, store, assign}
use mmu.Frame.{Frames}
use mmu.Frame.Residency.{reclaim-Frames, forget_block-Frames}
use mmu.Residency.{reclaim_unused_resident_blocks, forget_block}
use mmu.Residency.Calm.{flags, Calm}
use mmu.Residency.Room.{Shrinks, Calm-Shrinks}
use mmu.Residency.Promotion.{IsBounded, Shrinks-IsBounded}
use mmu.Residency.Reclaim.{
  reclaim-Shrinks, reclaim_unused_resident_blocks-clears, forget_block-Shrinks, forget_block-clears,
}
use mmu.Api.{forget_if_unused}

-- The part that holds also while a call is giving back references.
pub record Loose (rt : Runtime) : Type 0 where
  pub bounded : IsBounded rt
  pub valid : IsValid rt.l1_allocator
  pub blocks : length (flags rt) ≡ length rt.l1_allocator.ref_counts
  pub capacity : rt.config.l1_block_count ≡ length rt.l1_allocator.ref_counts

-- A resident block other than `x` has a reference.
pub record SettledBut (x : ℤ) (rt : Runtime) : Type 0 where
  pub loose : Loose rt
  pub backed :
      (j : ℕ)
      → (x ==ℤ pos j) ≡ false
      → get_elem? (flags rt) j ≡ some true
      → 0 < count_at rt.l1_allocator j

-- Every resident block has one: -1 is no block.
abbrev pub Settled : Runtime → Type 0
Settled rt = SettledBut (negsuc 0) rt

Shrinks-Loose : (a b : Runtime) → Loose a → Frames a b → Shrinks a b → Loose b
Shrinks-Loose a b l f s = record {
  bounded = Shrinks-IsBounded a b l.bounded s;
  valid = rw f.same_allocator l.valid;
  blocks = rw f.same_allocator (s.same_blocks ∙ l.blocks);
  capacity = rw (f.same_allocator, f.same_config) l.capacity;
}

-- What was resident after a step that makes none resident was so before.
resident_before :
    (a b : Runtime) (j : ℕ)
    → Shrinks a b
    → get_elem? (flags b) j ≡ some true
    → get_elem? (flags a) j ≡ some true
resident_before a b j s h =
    let (v, e) =
      get_elem?-some (flags a) j (omega (arith, lt_of_get_elem? (flags b) j h, s.same_blocks)) in
    elim (Bool-cases v) [
      | inl t ↦ e ∙ ap some t
      | inr f ↦ absurd (ground (arith, s.stays_out j (e ∙ ap some f), h))
    ]

pub Shrinks-SettledBut :
    (x : ℤ) (a b : Runtime) → SettledBut x a → Frames a b → Shrinks a b → SettledBut x b
Shrinks-SettledBut x a b h f s = record {
  loose = Shrinks-Loose a b h.loose f s;
  backed = λ j ne r. rw f.same_allocator (h.backed j ne (resident_before a b j s r));
}

pub Calm-SettledBut :
    (x : ℤ) (a b : Runtime) → SettledBut x a → Frames a b → Calm a b → SettledBut x b
Calm-SettledBut x a b h f c =
    Shrinks-SettledBut x a b h f (Calm-Shrinks a b h.loose.bounded.counted c)

-- A block in range without references has the count 0.
unused :
    (m : BlockManager) (j : ℕ)
    → j < length m.ref_counts
    → count_at m j ≡ 0
    → BlockManager.ref_count m (pos j) ≡ pos 0
unfolding BlockManager.ref_count
unused m j lt h = ground (arith, lt, h)

pub reclaim-Settled : (rt : Runtime) → Loose rt → Settled (reclaim_unused_resident_blocks rt)
reclaim-Settled rt l = record {
  loose = Shrinks-Loose rt lean l frame shrinks;
  backed = λ j ne r. elim (Bool-cases (zero_at j)) [
    | inr f ↦ rw frame.same_allocator (ground (arith, f))
    | inl t ↦
        let lt : j < length (flags rt) =
          omega (arith, lt_of_get_elem? (flags lean) j r, shrinks.same_blocks) in
        let out =
          reclaim_unused_resident_blocks-clears rt j l.bounded.counted
            (omega (arith, l.capacity, l.blocks)) lt
            (unused rt.l1_allocator j (omega (arith, l.blocks)) (ground (arith, t))) in
        absurd (ground (arith, out.0, r))
  ];
}
  where
    lean : Runtime
    lean = reclaim_unused_resident_blocks rt

    frame : Frames rt lean
    frame = reclaim-Frames rt

    shrinks : Shrinks rt lean
    shrinks = reclaim-Shrinks rt l.bounded.counted

    zero_at : ℕ → Bool
    zero_at j = count_at rt.l1_allocator j == 0

-- Another manager, and other contexts.
pub moved-SettledBut :
    (x : ℤ) (rt : Runtime) (m : BlockManager) (cs : List (ℕ × Context))
    → Settled rt
    → Spares x rt.l1_allocator m
    → SettledBut x (record rt { l1_allocator = m; contexts = cs })
moved-SettledBut x rt m cs h p = record {
  loose = record {
    bounded = record {
      counted = h.loose.bounded.counted;
      within = h.loose.bounded.within;
      narrow = h.loose.bounded.narrow;
    };
    valid = p.spares_valid;
    blocks = h.loose.blocks ∙ sym p.spares_capacity;
    capacity = h.loose.capacity ∙ sym p.spares_capacity;
  };
  backed = λ j ne r. p.spares j ne (h.backed j refl r);
}

pub store-SettledBut :
    (x : ℤ) (ctx : ℕ) (rt : Runtime) (s : Session)
    → Settled rt
    → Spares x rt.l1_allocator s.manager
    → SettledBut x (store ctx rt s)
store-SettledBut x ctx rt s h p =
    moved-SettledBut x rt s.manager (assign ctx s.context rt.contexts) h p

forgotten-Settled :
    (i : ℕ) (rt : Runtime) → SettledBut (pos i) rt → Settled (forget_block (pos i) rt)
forgotten-Settled i rt h =
    let s = forget_block-Shrinks i rt h.loose.bounded.counted in
    let f = forget_block-Frames (pos i) rt in
    record {
      loose = Shrinks-Loose rt _ h.loose f s;
      backed = λ j ne r. elim (Bool-cases (i == j)) [
        | inl e ↦
            let same : i ≡ j = ground arith in
            let lt : i < length (flags rt) =
              omega (
                arith,
                lt_of_get_elem? (flags (forget_block (pos i) rt)) j r,
                s.same_blocks,
                same,
              ) in
            let r' : get_elem? (flags (forget_block (pos i) rt)) i ≡ some true =
              ap (get_elem? (flags (forget_block (pos i) rt))) same ∙ r in
            absurd (ground (arith, forget_block-clears i rt lt, r'))
        | inr ne' ↦ rw f.same_allocator (h.backed j ne' (resident_before rt _ j s r))
      ];
    }

kept-Settled :
    (i : ℕ) (rt : Runtime)
    → SettledBut (pos i) rt
    → (BlockManager.ref_count rt.l1_allocator (pos i) ==ℤ pos 0) ≡ false
    → Settled rt
unfolding BlockManager.ref_count
kept-Settled i rt h used = record {
  loose = h.loose;
  backed = λ j ne r. elim (Bool-cases (i == j)) [
    | inl e ↦
        let lt : j < length rt.l1_allocator.ref_counts =
          omega (arith, lt_of_get_elem? (flags rt) j r, h.loose.blocks) in
        let same : i ≡ j = ground arith in ground (arith, used, lt, same)
    | inr ne' ↦ h.backed j ne' r
  ];
}

-- Forgetting a block where it has lost its last reference settles the runtime.
pub forget_if_unused-Settled :
    (x : ℤ) (rt : Runtime) → SettledBut x rt → Settled (forget_if_unused x rt)
unfolding BlockManager.ref_count
forget_if_unused-Settled (negsuc n) rt h = record { loose = h.loose; backed = h.backed }
forget_if_unused-Settled (pos i) rt h =
    elim (Bool-cases (BlockManager.ref_count rt.l1_allocator (pos i) ==ℤ pos 0)) [
      | inl t ↦ rw t (forgotten-Settled i rt h)
      | inr f ↦ rw f (kept-Settled i rt h f)
    ]
