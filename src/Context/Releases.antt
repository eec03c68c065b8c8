-- ===== src/Context/Releases.antt =====
-- The loops of a context that release ids, where each id is backed by a reference: the rollback of
-- an allocation, and the destructor.
use mmu.Prelude.{
  ℕ, suc, ◌+◌, ◌≤◌, ℤ, pos, negsuc, ◌==ℤ◌, true, false, List, [], ◌∷◌, ◌≡◌, refl, inl, inr, arith,
  length, length-set, Bool-cases,
}
use mmu.Exec.{or_same}
use mmu.BlockManager
use mmu.BlockManager.{BlockManager, count_at}
use mmu.BlockManager.Invariant.{IsValid, release-Updates}
use mmu.Context.{release_ids, release_all}
use mmu.Context.Balance.{mentions, Updates-count}

-- `m'` is well-formed, and its counts and those of `ids` make up the counts of `m`.
pub record GivesBack (m : BlockManager) (ids : List ℤ) (m' : BlockManager) : Type 0 where
  pub counts : (j : ℕ) → count_at m' j + mentions j ids ≡ count_at m j
  pub valid : IsValid m'
  pub same_capacity : length m'.ref_counts ≡ length m.ref_counts

-- Every mention is backed by a reference.
abbrev pub Covers : BlockManager → List ℤ → Type 0
Covers m ids = (j : ℕ) → mentions j ids ≤ count_at m j

-- One release that succeeds wherever the id is mentioned.
release_covered :
    (m : BlockManager) (id : ℤ) (ids : List ℤ)
    → IsValid m
    → Covers m (id ∷ ids)
    → (m' : BlockManager) × (or_same m (BlockManager.release m id) ≡ m') × GivesBack m (id ∷ []) m'
release_covered m (negsuc n) ids v c = elim (release-Updates m (negsuc n) v) [
  | inl (un, failed) ↦ (
    m,
    rw (failed, or_same),
    record { counts = λ j. omega arith; valid = v; same_capacity = refl },
  )
  | inr (i, r, m', is, done, u, same) ↦ absurd (cc)
]
release_covered m (pos i) ids v c = elim (release-Updates m (pos i) v) [
  | inl (inl e, failed) ↦ absurd (ground (arith, c i, e))
  | inl (inr e, failed) ↦ absurd (ground (arith, c i, e))
  | inr (k, r, m', is, done, u, len) ↦ (
    m',
    rw (done, or_same),
    record {
      counts = λ j. ground (arith, Updates-count m k (suc r) r m' u j, u.0);
      valid = u.2;
      same_capacity = rw u.1 (length-set m.ref_counts k r);
    },
  )
]

GivesBack-cons :
    (m m' m'' : BlockManager) (id : ℤ) (ids : List ℤ)
    → GivesBack m (id ∷ []) m'
    → GivesBack m' ids m''
    → GivesBack m (id ∷ ids) m''
GivesBack-cons m m' m'' id ids g h = record {
  counts = λ j. omega (arith, g.counts j, h.counts j);
  valid = h.valid;
  same_capacity = omega (arith, g.same_capacity, h.same_capacity);
}

Covers-tail :
    (m m' : BlockManager) (id : ℤ) (ids : List ℤ)
    → Covers m (id ∷ ids)
    → GivesBack m (id ∷ []) m'
    → Covers m' ids
Covers-tail m m' id ids c g j = omega (arith, c j, g.counts j)

pub release_ids-GivesBack :
    (ids : List ℤ) (m : BlockManager)
    → IsValid m
    → Covers m ids
    → GivesBack m ids (release_ids ids m)
unfolding release_ids
release_ids-GivesBack [] m v c = record {
  counts = λ j. omega arith;
  valid = v;
  same_capacity = refl;
}
release_ids-GivesBack (id ∷ ids) m v c =
    let (m', e, g) = release_covered m id ids v c in
    rw e (
      GivesBack-cons m m' _ id ids g
        (release_ids-GivesBack ids m' g.valid (Covers-tail m m' id ids c g)))

pub blank-mentions : (j : ℕ) (id : ℤ) → (id ==ℤ negsuc 0) ≡ true → (id ==ℤ pos j) ≡ false
blank-mentions j (pos n) h = absurd (cc)
blank-mentions j (negsuc n) h = refl

-- The destructor gives back one reference for each entry.
pub release_all-GivesBack :
    (ids : List ℤ) (m : BlockManager)
    → IsValid m
    → Covers m ids
    → GivesBack m ids (release_all ids m)
unfolding release_all
release_all-GivesBack [] m v c = record {
  counts = λ j. omega arith;
  valid = v;
  same_capacity = refl;
}
release_all-GivesBack (id ∷ ids) m v c = elim (Bool-cases (id ==ℤ negsuc 0)) [
  | inl blank ↦ rw blank (
      GivesBack-cons m m _ id ids
        (record {
          counts = λ j. ground (arith, blank-mentions j id blank);
          valid = v;
          same_capacity = refl;
        })
        (release_all-GivesBack ids m v (λ j. omega (arith, c j))))
  | inr taken ↦
      let (m', e, g) = release_covered m id ids v c in
      rw (taken, e)
        (GivesBack-cons m m' _ id ids g
          (release_all-GivesBack ids m' g.valid (Covers-tail m m' id ids c g)))
]
