-- ===== src/Context/Fork.antt =====
-- Fork and the destructor on any page table, also one with entries of blocks that have no reference,
-- as an allocation that fails leaves them.
use mmu.Prelude.{
  ℕ, suc, ◌+◌, ◌-◌, ℤ, pos, negsuc, ◌==ℤ◌, List, [], ◌∷◌, ◌≡◌, refl, ◌∙◌, inl, inr, arith, ◌==◌,
  if◌then◌else◌, Bool-cases,
}
use mmu.Exec.{or_same}
use mmu.BlockManager
use mmu.BlockManager.{BlockManager, count_at}
use mmu.BlockManager.Invariant.{IsValid, release-Updates, retain-Updates}
use mmu.Context.{Context, fork, retain_ids, release_all, release_all_blocks}
use mmu.Context.Balance.{mentions, Updates-count}
use mmu.Context.Releases.{Covers, blank-mentions}

abbrev pub entries : Context → List ℤ
entries c = c.page_table.entries

-- A count of `r` after `k` calls of retain: a block without references gets none.
abbrev pub retained : ℕ → ℕ → ℕ
retained r k = if r == 0 then 0 else r + k

-- `m'` is `m` after a retain for each of `ids`.
record Retained (m : BlockManager) (ids : List ℤ) (m' : BlockManager) : Type 0 where
  counts : (j : ℕ) → count_at m' j ≡ retained (count_at m j) (mentions j ids)
  same_free : m'.free_list ≡ m.free_list
  valid : IsValid m'

-- `m'` is `m` after a release for each of `ids`.
record Released (m : BlockManager) (ids : List ℤ) (m' : BlockManager) : Type 0 where
  counts : (j : ℕ) → count_at m' j ≡ count_at m j - mentions j ids
  valid : IsValid m'

retain_one :
    (m : BlockManager) (id : ℤ)
    → IsValid m
    → (m' : BlockManager) × (or_same m (BlockManager.retain m id) ≡ m') × Retained m (id ∷ []) m'
retain_one m (negsuc n) v = elim (retain-Updates m (negsuc n) v) [
  | inl (un, failed) ↦
      (m, rw (failed, or_same), record { counts = λ j. ground arith; same_free = refl; valid = v })
  | inr (i, r, m', is, done, u, same) ↦ absurd (cc)
]
retain_one m (pos i) v = elim (retain-Updates m (pos i) v) [
  | inl (inl e, failed) ↦ (
    m,
    rw (failed, or_same),
    record { counts = λ j. ground (arith, e); same_free = refl; valid = v },
  )
  | inl (inr e, failed) ↦ (
    m,
    rw (failed, or_same),
    record { counts = λ j. ground (arith, e); same_free = refl; valid = v },
  )
  | inr (k, r, m', is, done, u, same) ↦ (
    m',
    rw (done, or_same),
    record {
      counts = λ j. ground (arith, Updates-count m k (suc r) (suc (suc r)) m' u j, u.0);
      same_free = same;
      valid = u.2;
    },
  )
]

release_one :
    (m : BlockManager) (id : ℤ)
    → IsValid m
    → (m' : BlockManager) × (or_same m (BlockManager.release m id) ≡ m') × Released m (id ∷ []) m'
release_one m (negsuc n) v = elim (release-Updates m (negsuc n) v) [
  | inl (un, failed) ↦ (m, rw (failed, or_same), record { counts = λ j. ground arith; valid = v })
  | inr (i, r, m', is, done, u, same) ↦ absurd (cc)
]
release_one m (pos i) v = elim (release-Updates m (pos i) v) [
  | inl (inl e, failed) ↦
      (m, rw (failed, or_same), record { counts = λ j. ground (arith, e); valid = v })
  | inl (inr e, failed) ↦
      (m, rw (failed, or_same), record { counts = λ j. ground (arith, e); valid = v })
  | inr (k, r, m', is, done, u, len) ↦ (
    m',
    rw (done, or_same),
    record { counts = λ j. ground (arith, Updates-count m k (suc r) r m' u j, u.0); valid = u.2 },
  )
]

retain_ids-Retained :
    (ids : List ℤ) (m : BlockManager) → IsValid m → Retained m ids (retain_ids ids m)
unfolding retain_ids
retain_ids-Retained [] m v = record { counts = λ j. ground arith; same_free = refl; valid = v }
retain_ids-Retained (id ∷ ids) m v = elim (Bool-cases (id ==ℤ negsuc 0)) [
  | inl blank ↦
      let rest = retain_ids-Retained ids m v in
      rw blank (record {
        counts = λ j. ground (arith, blank-mentions j id blank, rest.counts j);
        same_free = rest.same_free;
        valid = rest.valid;
      })
  | inr taken ↦
      let (m', e, one) = retain_one m id v in
      let rest = retain_ids-Retained ids m' one.valid in
      rw (taken, e)
        (record {
          counts = λ j. ground (arith, one.counts j, rest.counts j);
          same_free = rest.same_free ∙ one.same_free;
          valid = rest.valid;
        })
]

release_all-Released :
    (ids : List ℤ) (m : BlockManager) → IsValid m → Released m ids (release_all ids m)
unfolding release_all
release_all-Released [] m v = record { counts = λ j. omega arith; valid = v }
release_all-Released (id ∷ ids) m v = elim (Bool-cases (id ==ℤ negsuc 0)) [
  | inl blank ↦
      let rest = release_all-Released ids m v in
      rw blank (record {
        counts = λ j. ground (arith, blank-mentions j id blank, rest.counts j);
        valid = rest.valid;
      })
  | inr taken ↦
      let (m', e, one) = release_one m id v in
      let rest = release_all-Released ids m' one.valid in
      rw (taken, e)
        (record { counts = λ j. ground (arith, one.counts j, rest.counts j); valid = rest.valid })
]

-- On a well-formed manager, the child has the parent's entries. The count of each block that has
-- references grows by the number of entries that name it; a block without references gets none, as
-- retain fails on it. The free list stays, and the manager stays well-formed.
pub fork_counts :
    (c : Context) (m : BlockManager)
    → IsValid m
    → (entries (fork c m).context ≡ entries c)
      × ((j : ℕ)
          → count_at (fork c m).manager j
            ≡ (if count_at m j == 0 then 0 else count_at m j + mentions j (entries c)))
      × ((fork c m).manager.free_list ≡ m.free_list)
      × IsValid (fork c m).manager
unfolding fork
fork_counts c m v =
    let r = retain_ids-Retained (entries c) m v in (refl, r.counts, r.same_free, r.valid)

-- Where every entry is backed by a reference, the child gets one for each.
pub fork_covered :
    (c : Context) (m : BlockManager)
    → IsValid m
    → Covers m (entries c)
    → (j : ℕ) → count_at (fork c m).manager j ≡ count_at m j + mentions j (entries c)
fork_covered c m v h j = ground (arith, (fork_counts c m v).1 j, h j)

-- On a well-formed manager, destroying the child right after the fork restores every count, and the
-- manager stays well-formed.
pub release_all_blocks-fork :
    (c : Context) (m : BlockManager)
    → IsValid m
    → ((j : ℕ)
        → count_at (release_all_blocks (fork c m).context (fork c m).manager) j ≡ count_at m j)
      × IsValid (release_all_blocks (fork c m).context (fork c m).manager)
unfolding fork release_all_blocks
release_all_blocks-fork c m v =
    let r = retain_ids-Retained (entries c) m v in
    let b = release_all-Released (entries c) (retain_ids (entries c) m) r.valid in
    (λ j. ground (arith, r.counts j, b.counts j), b.valid)
