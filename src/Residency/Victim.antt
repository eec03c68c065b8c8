-- ===== src/Residency/Victim.antt =====
-- PickEvictionCandidate: the least recently used block that may go.
use mmu.Prelude.{
  ℕ, zero, suc, ◌+◌, ◌-◌, ◌≤◌, ◌<◌, ℤ, pos, negsuc, Bool, true, false, ◌&&◌, ◌≡◌, refl, ap, ◌⊎◌,
  inl, inr, arith, ltb, u64_mod, Bool-cases, ◌==◌, ◌≢◌, some, get_elem?, lt_of_get_elem?, ==ℤ_iff,
  Option-cases,
}
use mmu.BlockDirectory
use mmu.BlockDirectory.{BlockMeta}
use mmu.Runtime.{Runtime, block_meta_for}
use mmu.Residency.{is_candidate, epoch_of, pick_from, pick_eviction_candidate}

module _ (candidate : ℕ → Bool) (last_access : ℕ → ℕ) where
  -- `v` is the candidate below `k` with the smallest epoch `oldest`, the first one of such; or no
  -- candidate below `k` has an epoch below the largest number, and `v` is -1.
  pub record Best (k : ℕ) (v : ℤ) (oldest : ℕ) : Type 0 where
    pub least : (j : ℕ) → j < k → candidate j ≡ true → oldest ≤ last_access j
    pub chosen :
        ((v ≡ negsuc 0) × (oldest ≡ u64_mod - 1))
        ⊎ ((i : ℕ) × (v ≡ pos i)
            × (i < k)
            × (candidate i ≡ true)
            × (oldest ≡ last_access i)
            × ((j : ℕ) → j < i → candidate j ≡ true → oldest < last_access j))

  Best-skip :
      (k : ℕ) (v : ℤ) (oldest : ℕ)
      → (candidate k && ltb (last_access k) oldest) ≡ false
      → Best k v oldest
      → Best (suc k) v oldest
  Best-skip k v oldest h b = record {
    least = λ j lt c. elim (Bool-cases (j == k)) [
      | inl e ↦
          let same : j ≡ k = ground arith in
          let c' : candidate k ≡ true = rw (← same) c in ground (arith, ap last_access same)
      | inr e ↦ b.least j (ground arith) c
    ];
    chosen = elim b.chosen [
      | inl e ↦ inl e
      | inr (i, e, lt, c, o, f) ↦ inr (i, e, omega arith, c, o, f)
    ];
  }

  Best-take :
      (k : ℕ) (v : ℤ) (oldest : ℕ)
      → (candidate k && ltb (last_access k) oldest) ≡ true
      → Best k v oldest
      → Best (suc k) (pos k) (last_access k)
  Best-take k v oldest h b = record {
    least = λ j lt c. elim (Bool-cases (j == k)) [
      | inl e ↦ let same : j ≡ k = ground arith in ground (arith, ap last_access same)
      | inr e ↦ ground (arith, b.least j (ground arith) c)
    ];
    chosen =
        inr (k, refl, omega arith, ground arith, refl, λ j lt c. ground (arith, b.least j lt c));
  }

  Best-start : Best 0 (negsuc 0) (u64_mod - 1)
  Best-start = record { least = λ j lt c. absurd (omega arith); chosen = inl (refl, refl) }

-- Block `i` may be evicted: it is allocated, resident, not pinned and not protected.
abbrev pub may_go : Runtime → ℤ → ℕ → Bool
may_go rt protected_pbid i = is_candidate protected_pbid i (block_meta_for (pos i) rt)

abbrev pub access_of : Runtime → ℕ → ℕ
access_of rt i = epoch_of (block_meta_for (pos i) rt)

-- The rest of the loop improves on what it has.
pick_from-Best :
    (rt : Runtime) (p : ℤ) (n k m : ℕ) (v : ℤ) (oldest : ℕ)
    → k + n ≡ m
    → Best (may_go rt p) (access_of rt) k v oldest
    → (o : ℕ) × Best (may_go rt p) (access_of rt) m (pick_from rt p k n v oldest) o
unfolding pick_from
pick_from-Best rt p zero k m v oldest e b =
    let same : k ≡ m = omega arith in (oldest, rw (← same) b)
pick_from-Best rt p (suc n) k m v oldest e b =
    elim (Bool-cases (may_go rt p k && ltb (access_of rt k) oldest)) [
      | inl t ↦ rw t (
          pick_from-Best rt p n (suc k) m (pos k) (access_of rt k) (omega arith)
            (Best-take (may_go rt p) (access_of rt) k v oldest t b))
      | inr f ↦ rw f (
          pick_from-Best rt p n (suc k) m v oldest (omega arith)
            (Best-skip (may_go rt p) (access_of rt) k v oldest f b))
    ]

pick-Best :
    (rt : Runtime) (p : ℤ)
    → (o : ℕ) × Best
        (may_go rt p)
        (access_of rt)
        rt.config.l1_block_count
        (pick_eviction_candidate rt p)
        o
unfolding pick_eviction_candidate
pick-Best rt p =
    pick_from-Best rt p rt.config.l1_block_count 0 _ (negsuc 0) (u64_mod - 1) (omega arith)
      (Best-start (may_go rt p) (access_of rt))

-- Block `i`, with metadata `m`, can be evicted to make room for block `p`: it is allocated,
-- resident in L1 and not pinned, and it is not `p` itself.
abbrev pub CanGo : Runtime → ℤ → ℕ → BlockMeta → Type 0
CanGo rt p i m =
    (get_elem? rt.block_directory.metas i ≡ some m)
    × (m.allocated ≡ true)
    × (m.resident_in_l1 ≡ true)
    × (m.pin_count ≡ 0)
    × (pos i ≢ p)

CanGo-may_go :
    (rt : Runtime) (p : ℤ) (i : ℕ) (m : BlockMeta)
    → CanGo rt p i m
    → (may_go rt p i ≡ true) × (access_of rt i ≡ m.last_access_epoch)
unfolding BlockDirectory.get
CanGo-may_go rt p i m (at, a, r, pin, ne) =
    ground (arith, at, lt_of_get_elem? rt.block_directory.metas i at, ==ℤ_iff (pos i) p)

may_go-CanGo :
    (rt : Runtime) (p : ℤ) (i : ℕ)
    → may_go rt p i ≡ true
    → (m : BlockMeta) × CanGo rt p i m × (access_of rt i ≡ m.last_access_epoch)
unfolding BlockDirectory.get
may_go-CanGo rt p i h = elim (Option-cases (get_elem? rt.block_directory.metas i)) [
  | inl e ↦ absurd (ground (arith, e))
  | inr (m, e) ↦ (m, ground (arith, e, ==ℤ_iff (pos i) p), ground (arith, e))
]

-- The victim is an allocated, resident and unpinned block other than the protected one whose last
-- access is the oldest of all such blocks. It is -1 only if no such block has an access epoch below
-- the largest number of 64 bits.
pub pick_eviction_candidate_oldest :
    (rt : Runtime) (p : ℤ)
    → ((pick_eviction_candidate rt p ≡ negsuc 0)
        × ((j : ℕ) (n : BlockMeta)
            → j < rt.config.l1_block_count
            → CanGo rt p j n
            → u64_mod - 1 ≤ n.last_access_epoch))
      ⊎ ((i : ℕ) × (m : BlockMeta) × (pick_eviction_candidate rt p ≡ pos i)
          × (i < rt.config.l1_block_count)
          × CanGo rt p i m
          × ((j : ℕ) (n : BlockMeta)
              → j < rt.config.l1_block_count
              → CanGo rt p j n
              → m.last_access_epoch ≤ n.last_access_epoch))
pick_eviction_candidate_oldest rt p =
    let (o, b) = pick-Best rt p in
    elim b.chosen [
      | inl (v, e) ↦ inl (
        v,
        λ j n lt g.
            let (may, same) = CanGo-may_go rt p j n g in omega (arith, b.least j lt may, same, e),
      )
      | inr (i, v, lt, c, e, f) ↦
          let (m, g, same) = may_go-CanGo rt p i c in
          inr (
            i,
            m,
            v,
            lt,
            g,
            λ j n lt' g'.
                let (may, same') = CanGo-may_go rt p j n g' in
                omega (arith, b.least j lt' may, same', same, e),
          )
    ]
