-- ===== src/Context/Spares.antt =====
-- Which blocks a method of a context may leave without references.
use mmu.Prelude.{
  ℕ, suc, ◌<◌, ℤ, pos, negsuc, ◌==ℤ◌, false, List, [], ◌∷◌, ◌≡◌, refl, ◌∙◌, inl, inr, arith, length,
  length-set, Bool-cases,
}
use mmu.Exec.{or_same}
use mmu.BlockManager.{BlockManager, count_at}
use mmu.BlockManager.Invariant.{IsValid, Updates, release-Updates, retain-Updates}
use mmu.Context.{release_all, retain_ids}
use mmu.Context.Balance.{Updates-count}

-- From `m` to `m'` no block but `x` has lost its last reference.
pub record Spares (x : ℤ) (m m' : BlockManager) : Type 0 where
  pub spares : (j : ℕ) → (x ==ℤ pos j) ≡ false → 0 < count_at m j → 0 < count_at m' j
  pub spares_valid : IsValid m'
  pub spares_capacity : length m'.ref_counts ≡ length m.ref_counts

-- No block has: -1 is none.
abbrev pub SparesAll : BlockManager → BlockManager → Type 0
SparesAll m m' = Spares (negsuc 0) m m'

pub Spares-refl : (x : ℤ) (m : BlockManager) → IsValid m → Spares x m m
Spares-refl x m v = record { spares = λ j ne h. h; spares_valid = v; spares_capacity = refl }

pub Spares-trans :
    (x : ℤ) (m m' m'' : BlockManager) → Spares x m m' → Spares x m' m'' → Spares x m m''
Spares-trans x m m' m'' f g = record {
  spares = λ j ne h. g.spares j ne (f.spares j ne h);
  spares_valid = g.spares_valid;
  spares_capacity = g.spares_capacity ∙ f.spares_capacity;
}

-- A release spares the others, and all if it leaves a reference.
pub release-Spares :
    (m m' : BlockManager) (i r : ℕ) → Updates m i (suc r) r m' → Spares (pos i) m m'
release-Spares m m' i r u = record {
  spares = λ j ne h. ground (arith, Updates-count m i (suc r) r m' u j);
  spares_valid = u.2;
  spares_capacity = rw u.1 (length-set m.ref_counts i r);
}

pub grow-Spares :
    (x : ℤ) (m m' : BlockManager) (i old new : ℕ) → Updates m i old (suc new) m' → Spares x m m'
grow-Spares x m m' i old new u = record {
  spares = λ j ne h. ground (arith, Updates-count m i old (suc new) m' u j);
  spares_valid = u.2;
  spares_capacity = rw u.1 (length-set m.ref_counts i (suc new));
}

-- `m'` is well-formed, and has as many blocks.
pub record Sound (m m' : BlockManager) : Type 0 where
  pub sound_valid : IsValid m'
  pub sound_capacity : length m'.ref_counts ≡ length m.ref_counts

-- The destructor may give back anything.
pub release_all-Sound : (ids : List ℤ) (m : BlockManager) → IsValid m → Sound m (release_all ids m)
unfolding release_all
release_all-Sound [] m v = record { sound_valid = v; sound_capacity = refl }
release_all-Sound (id ∷ ids) m v = elim (Bool-cases (id ==ℤ negsuc 0)) [
  | inl blank ↦ rw blank (release_all-Sound ids m v)
  | inr taken ↦ elim (release-Updates m id v) [
    | inl (un, failed) ↦ rw (taken, failed, or_same) (release_all-Sound ids m v)
    | inr (i, r, m', is, done, u, len) ↦
        let rest : Sound m' (release_all ids m') = release_all-Sound ids m' u.2 in
        rw (taken, done, or_same)
          (record {
            sound_valid = rest.sound_valid;
            sound_capacity = rest.sound_capacity ∙ rw u.1 (length-set m.ref_counts i r);
          })
  ]
]

-- Fork takes references only.
pub retain_ids-Spares :
    (ids : List ℤ) (m : BlockManager) → IsValid m → SparesAll m (retain_ids ids m)
unfolding retain_ids
retain_ids-Spares [] m v = Spares-refl (negsuc 0) m v
retain_ids-Spares (id ∷ ids) m v = elim (Bool-cases (id ==ℤ negsuc 0)) [
  | inl blank ↦ rw blank (retain_ids-Spares ids m v)
  | inr taken ↦ elim (retain-Updates m id v) [
    | inl (un, failed) ↦ rw (taken, failed, or_same) (retain_ids-Spares ids m v)
    | inr (i, r, m', is, done, u, same) ↦
        rw (taken, done, or_same)
          (Spares-trans (negsuc 0) m m' _ (grow-Spares (negsuc 0) m m' i (suc r) (suc r) u)
            (retain_ids-Spares ids m' u.2))
  ]
]
