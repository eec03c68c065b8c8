-- ===== src/Settled/Allocate.antt =====
-- Allocation keeps a runtime settled: the new blocks are in use, and were not resident.
use mmu.Prelude.{
  ℕ, suc, ◌<◌, ◌≤◌, ℤ, pos, negsuc, ◌==ℤ◌, ◌==◌, true, false, List, [], ◌∷◌, none, some, ◌≡◌, ◌≢◌,
  refl, sym, ap, ◌∙◌, inl, inr, arith, length, get_elem?, get_elem?-some, get_elem?-set_ne,
  length-set, lt_of_get_elem?, tally, Bool-cases, Option-cases, ltb, int_max, if◌then◌else◌,
}
use mmu.Types.{Result, ok, err, stuck}
use mmu.Exec.{modify, ◌>>=◌, continue}
use mmu.Exec.Returns.{returns}
use mmu.BlockManager.{count_at}
use mmu.Context.{Session}
use mmu.Context.Balance.{mentions}
use mmu.Context.Rounds.{Takes}
use mmu.Context.Freeing.{Allocating, allocate_blocks-Allocating}
use mmu.Runtime.{Runtime, find, find_context, in_context, session, store}
use mmu.Frame.{Frames}
use mmu.Frame.Residency.{register_fresh_block-Frames, reclaim-Frames}
use mmu.Residency.{register_fresh_block, reclaim_unused_resident_blocks}
use mmu.Residency.Calm.{flags}
use mmu.Residency.Fresh.{Placed, register_fresh_block-Placed}
use mmu.Api.{allocate_blocks, register_all}
use mmu.Settled.{Settled, store-SettledBut, reclaim-Settled}
use mmu.Settled.Rules.{Settles}
use mmu.Settled.Blocks.{free_out}

-- Blocks to register: each named once, in use, and not resident yet.
record Ready (ids : List ℤ) (rt : Runtime) : Type 0 where
  once : (j : ℕ) → mentions j ids ≤ 1
  no_blank : (n : ℕ) → tally (λ e. e ==ℤ negsuc n) ids ≡ 0
  out : (j : ℕ) → 0 < mentions j ids → get_elem? (flags rt) j ≡ some false
  used : (j : ℕ) → 0 < mentions j ids → 0 < count_at rt.l1_allocator j

module _ (i : ℕ) (ids : List ℤ) (rt : Runtime) (h : Settled rt) (r : Ready (pos i ∷ ids) rt) where
  placed : Placed i rt (register_fresh_block (pos i) rt)
  placed = register_fresh_block-Placed i rt h.loose.bounded (r.out i (ground arith))

  frame : Frames rt (register_fresh_block (pos i) rt)
  frame = register_fresh_block-Frames (pos i) rt

  elsewhere :
      (j : ℕ)
      → i ≢ j
      → get_elem? (flags (register_fresh_block (pos i) rt)) j ≡ get_elem? (flags rt) j
  elsewhere j ne =
      ap (λ fs. get_elem? fs j) placed.placed_flags
      ∙ get_elem?-set_ne (flags rt) i j (ltb rt.resident_count rt.resident_limit) ne

  self_mention : mentions i (pos i ∷ ids) ≡ suc (mentions i ids)
  self_mention = ground arith

  registered-Settled : Settled (register_fresh_block (pos i) rt)
  registered-Settled = record {
    loose = record {
      bounded = placed.placed_bounded;
      valid = rw frame.same_allocator h.loose.valid;
      blocks = rw frame.same_allocator (
          ap length placed.placed_flags
          ∙ length-set (flags rt) i (ltb rt.resident_count rt.resident_limit)
          ∙ h.loose.blocks);
      capacity = rw (frame.same_allocator, frame.same_config) h.loose.capacity;
    };
    backed = λ j ne res. rw frame.same_allocator (elim (Bool-cases (i == j)) [
      | inl e ↦ let same : i ≡ j = ground arith in rw (← same) (r.used i (ground arith))
      | inr e ↦ h.backed j refl (sym (elsewhere j (ground arith)) ∙ res)
    ]);
  }

  registered-Ready : Ready ids (register_fresh_block (pos i) rt)
  registered-Ready = record {
    once = λ j. omega (arith, r.once j);
    no_blank = λ n. omega (arith, r.no_blank n);
    out = λ j m.
        elsewhere j (λ e. omega (arith, r.once i, ap (λ k. mentions k ids) e, m, self_mention))
        ∙ r.out j (omega (arith, m));
    used = λ j m. rw frame.same_allocator (r.used j (omega (arith, m)));
  }

register_all-Settled :
    (ids : List ℤ) (rt : Runtime) → Settled rt → Ready ids rt → Settled (register_all ids rt)
unfolding register_all
register_all-Settled [] rt h r = h
register_all-Settled (negsuc n ∷ ids) rt h r = absurd (ground (arith, r.no_blank n))
register_all-Settled (pos i ∷ ids) rt h r =
    register_all-Settled ids _ (registered-Settled i ids rt h r) (registered-Ready i ids rt h r)

-- The blocks of a successful allocation are ready.
taken-Ready :
    (ctx : ℕ) (rt : Runtime) (s : Session) (ids : List ℤ)
    → Settled rt
    → Takes rt.l1_allocator ids s.manager
    → Ready ids (store ctx rt s)
taken-Ready ctx rt s ids h t = record {
  once = t.at_most_once;
  no_blank = t.no_blank;
  out = λ j m.
      let (c, e) = get_elem?-some rt.l1_allocator.ref_counts j (in_range j m) in
      free_out j rt h (ground (arith, e, t.free_before j m));
  used = λ j m. omega (arith, t.counts j, m);
}
  where
    in_range : (j : ℕ) → 0 < mentions j ids → j < length rt.l1_allocator.ref_counts
    in_range j m = elim (Option-cases (get_elem? s.manager.ref_counts j)) [
      | inl e ↦ absurd (ground (arith, e, t.counts j))
      | inr (c, e) ↦ omega (arith, lt_of_get_elem? s.manager.ref_counts j e, t.same_capacity)
    ]

abbrev after_allocate : Result (List ℤ) → Runtime → Result (Unit {0}) × Runtime
after_allocate r rt = continue r (λ ids. modify (register_all ids)) rt

after_allocate-settles :
    (ctx : ℕ) (rt : Runtime) (r : Result (List ℤ)) (s : Session)
    → Settled rt
    → Allocating rt.l1_allocator r s.manager
    → Settled (after_allocate r (store ctx rt s)).1
      × (returns (after_allocate r (store ctx rt s)).0 ≡ true)
unfolding modify
after_allocate-settles ctx rt (ok ids) s h (spared, t) = (
  register_all-Settled ids (store ctx rt s) (store-SettledBut (negsuc 0) ctx rt s h spared)
      (taken-Ready ctx rt s ids h t),
  refl,
)
after_allocate-settles ctx rt (err e) s h p = (store-SettledBut (negsuc 0) ctx rt s h p, refl)
after_allocate-settles ctx rt stuck s h p = absurd (cc)

Frames-find :
    (ctx : ℕ) (rt rt' : Runtime) → Frames rt rt' → find_context ctx rt' ≡ find_context ctx rt
unfolding find_context
Frames-find ctx rt rt' f = ap (λ cs. if ctx == 0 then none else find ctx cs) f.same_contexts

pub allocate_blocks-Settles : (ctx n : ℕ) → Settles (allocate_blocks ctx n)
unfolding allocate_blocks ◌>>=◌ in_context
allocate_blocks-Settles ctx n = record {
  settles = λ rt h.
      let lean = reclaim_unused_resident_blocks rt in
      let settled : Settled lean = reclaim-Settled rt h.loose in
      let same : find_context ctx lean ≡ find_context ctx rt =
        Frames-find ctx rt lean (reclaim-Frames rt) in
      elim (Option-cases (find_context ctx rt)) [
        | inl e ↦ rw e (h, refl)
        | inr (c, e) ↦ elim (Bool-cases (ltb int_max n)) [
          | inl large ↦ rw (e, large) (h, refl)
          | inr small ↦
              let found : find_context ctx lean ≡ some c = same ∙ e in
              rw (e, small, found)
                (after_allocate-settles ctx lean _ _ settled
                  (allocate_blocks-Allocating n (session lean c) settled.loose.valid))
        ]
      ];
}
