-- ===== src/Context/Allocation.antt =====
-- AllocateBlocks: what a success hands out, and what a failure leaves behind.
use mmu.Prelude.{
  ℕ, ◌≤◌, ◌<◌, ℤ, pos, negsuc, ◌==ℤ◌, List, [], ◌∷◌, ◌++◌, ◌≡◌, refl, ap, inl, inr, arith, length,
  tally, tally-append, get_elem?, lt_of_get_elem?, Option-cases,
}
use mmu.Types.{ok, err, out_of_memory}
use mmu.BlockManager
use mmu.BlockManager.{BlockManager, count_at}
use mmu.BlockManager.Invariant.{IsValid}
use mmu.Context.{Session, entries_of, allocate_blocks, release_ids}
use mmu.Context.Balance.{mentions, Moves}
use mmu.Context.Releases.{GivesBack, Covers, release_ids-GivesBack}
use mmu.Context.Rounds.{grown, Takes, rounds_enough, rounds_short}

-- On a well-formed manager, a request for at most as many blocks as are free succeeds: the new
-- entries are that many blocks, all different and free before, each now with one reference, and no
-- other entry or count changes.
pub allocate_blocks-success :
    (n : ℕ) (s : Session)
    → IsValid s.manager
    → n ≤ length s.manager.free_list
    → (ids : List ℤ) × (m : BlockManager) × (allocate_blocks (pos n) s ≡ (ok ids, grown s m ids))
      × (length ids ≡ n)
      × Takes s.manager ids m
unfolding allocate_blocks
allocate_blocks-success n s v h = rounds_enough n [] s v h

-- A request that fits the free blocks moves the counts with the entries.
pub allocate_blocks-Moves :
    (n : ℕ) (s : Session)
    → IsValid s.manager
    → n ≤ length s.manager.free_list
    → Moves s (allocate_blocks (pos n) s).1
allocate_blocks-Moves n s v h =
    let (ids, m, e, size, t) = allocate_blocks-success n s v h in
    rw e (record {
      balanced = λ j. omega (arith, t.counts j, tally-append (λ e. e ==ℤ pos j) (entries_of s) ids);
      valid = t.valid;
      same_capacity = t.same_capacity;
    })

pub covered : (m m' : BlockManager) (ids : List ℤ) → Takes m ids m' → Covers m' ids
covered m m' ids t j = omega (arith, t.counts j)

-- A block that has been handed out is one of the manager's.
in_range-Takes :
    (m m' : BlockManager) (ids : List ℤ) (j : ℕ)
    → Takes m ids m'
    → 0 < mentions j ids
    → j < length m.ref_counts
in_range-Takes m m' ids j t p = elim (Option-cases (get_elem? m'.ref_counts j)) [
  | inl e ↦ absurd (ground (arith, t.counts j, p, e))
  | inr (r, e) ↦ omega (arith, lt_of_get_elem? m'.ref_counts j e, t.same_capacity)
]

-- On a well-formed manager, a request for more blocks than are free reports `out_of_memory` and
-- restores every count, but appends an entry for each block that was free to the page table. These
-- entries name as many different blocks of the manager, none of them is blank, and none of these
-- blocks has a reference.
pub allocate_blocks-failure :
    (n : ℕ) (s : Session)
    → IsValid s.manager
    → length s.manager.free_list < n
    → (ids : List ℤ) × (t : Session) × (allocate_blocks (pos n) s ≡ (err out_of_memory, t))
      × (entries_of t ≡ entries_of s ++ ids)
      × (length ids ≡ length s.manager.free_list)
      × ((j : ℕ) → mentions j ids ≤ 1)
      × ((k : ℕ) → tally (λ e. e ==ℤ negsuc k) ids ≡ 0)
      × ((j : ℕ) → 0 < mentions j ids → BlockManager.ref_count t.manager (pos j) ≡ pos 0)
      × ((j : ℕ) → count_at t.manager j ≡ count_at s.manager j)
      × IsValid t.manager
unfolding allocate_blocks BlockManager.ref_count BlockManager.is_valid
allocate_blocks-failure n s v h =
    let (ids, m, e, size, t) = rounds_short n [] s v h in
    let g : GivesBack m ids (release_ids ids m) =
      release_ids-GivesBack ids m t.valid (covered s.manager m ids t) in
    (
      ids,
      grown s (release_ids ids m) ids,
      e,
      refl,
      size,
      t.at_most_once,
      t.no_blank,
      λ j p. ground (
        arith,
        t.counts j,
        g.counts j,
        t.free_before j p,
        in_range-Takes s.manager m ids j t p,
        t.same_capacity,
        g.same_capacity,
      ),
      λ j. omega (arith, t.counts j, g.counts j),
      g.valid,
    )

has_mention :
    (m m' : BlockManager) (ids : List ℤ)
    → Takes m ids m'
    → 0 < length ids
    → (j : ℕ) × (0 < mentions j ids)
has_mention m m' [] t h = absurd (omega arith)
has_mention m m' (pos i ∷ ids) t h = (i, ground arith)
has_mention m m' (negsuc n ∷ ids) t h = absurd (ground (arith, t.no_blank n))

-- So on a well-formed manager, whenever some but too few blocks are free, the failure breaks the
-- balance of counts and entries that the other methods keep.
pub allocate_blocks-unbalanced :
    (n : ℕ) (s : Session)
    → IsValid s.manager
    → 0 < length s.manager.free_list
    → length s.manager.free_list < n
    → ¬ Moves s (allocate_blocks (pos n) s).1
unfolding allocate_blocks
allocate_blocks-unbalanced n s v some_free h moves =
    let (ids, m, e, size, t) = rounds_short n [] s v h in
    let (j, p) = has_mention s.manager m ids t (omega (arith, size)) in
    let g : GivesBack m ids (release_ids ids m) =
      release_ids-GivesBack ids m t.valid (covered s.manager m ids t) in
    let kept : Moves s (grown s (release_ids ids m) ids) = rw (ap (λ r. r.1) e) at moves in
    omega (
      arith,
      kept.balanced j,
      t.counts j,
      g.counts j,
      p,
      tally-append (λ e. e ==ℤ pos j) (entries_of s) ids,
    )
