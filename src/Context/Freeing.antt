-- ===== src/Context/Freeing.antt =====
-- What each method of a context does to the references of the blocks, by its result.
use mmu.Prelude.{
  ℕ, zero, suc, ℤ, pos, negsuc, ◌==ℤ◌, true, false, List, [], some, ◌≡◌, refl, ◌∙◌, inl, inr, ◌⊎◌,
  arith, length, length-set, Bool-cases, get_elem?, ◌==◌, ltb,
}
use mmu.Types.{ptr, ok, err, stuck, Result}
use mmu.Exec.{or_same, ◌>>=◌}
use mmu.BlockManager
use mmu.BlockManager.{BlockManager, count_at}
use mmu.BlockManager.Invariant.{
  IsValid, Updates, release-Updates, allocate-Updates, allocate_specific-Updates,
}
use mmu.PageTable
use mmu.Context.{
  is_positive, Session, manage, release_logical_block, prepare_block_for_write, replace_block,
  release_or_undo, update_mapping, move_mapping, allocate_blocks,
}
use mmu.Context.Balance.{Updates-count}
use mmu.Context.Spares.{Spares, SparesAll, Spares-refl, Spares-trans, release-Spares, grow-Spares}
use mmu.Context.Rounds.{Takes, rounds_enough, rounds_short}
use mmu.Context.Allocation.{covered}
use mmu.Context.Releases.{GivesBack, release_ids-GivesBack}

-- What a release of a logical block has done to the manager: on success only the block that the
-- entry names may have lost its last reference.
abbrev pub Releasing : ℤ → BlockManager → Result (Unit {0}) → BlockManager → Type 0
Releasing x m (ok u) m' = Spares x m m'
Releasing x m (err e) m' = SparesAll m m'
Releasing x m stuck m' = false ≡ true

pub release_logical_block-Releasing :
    (logical_block x : ℤ) (s : Session)
    → IsValid s.manager
    → PageTable.get s.context.page_table logical_block ptr ≡ some x
    → let (r, t) = release_logical_block logical_block s in Releasing x s.manager r t.manager
unfolding release_logical_block ◌>>=◌
release_logical_block-Releasing lb x s v at = elim (Bool-cases (x ==ℤ negsuc 0)) [
  | inl blank ↦ rw (at, blank) (Spares-refl (negsuc 0) s.manager v)
  | inr taken ↦ elim (release-Updates s.manager x v) [
    | inl (un, failed) ↦ rw (at, taken) (rw (failed, manage) (Spares-refl (negsuc 0) s.manager v))
    | inr (i, r, m, is, done, u, len) ↦
        rw (at, taken) (rw (done, manage) (rw is (release-Spares s.manager m i r u)))
  ]
]

-- Taking a block and giving it back.
undone-Spares :
    (m m' : BlockManager) (n : ℕ)
    → Updates m n 0 1 m'
    → SparesAll m (or_same m' (BlockManager.release m' (pos n)))
undone-Spares m m' n u = elim (release-Updates m' (pos n) u.2) [
  | inl (un, failed) ↦ rw (failed, or_same) (grow-Spares (negsuc 0) m m' n 0 0 u)
  | inr (i, r, m'', is, done, w, len) ↦
      rw (done, or_same)
        (record {
          spares = λ j ne h.
              ground
                (arith, Updates-count m n 0 1 m' u j, u.0, Updates-count m' i (suc r) r m'' w j);
          spares_valid = w.2;
          spares_capacity =
              (release-Spares m' m'' i r w).spares_capacity ∙ rw u.1 (length-set m.ref_counts n 1);
        })
]

-- A second release, which gives the new block `n` back if it fails.
release_or_undo-Releasing :
    (s : Session) (x : ℤ) (n : ℕ) (m : BlockManager)
    → Updates s.manager n 0 1 m
    → let (r, t) = release_or_undo x (pos n) (record s { manager = m }) in
      Releasing x s.manager r t.manager
release_or_undo-Releasing s x n m u = elim (release-Updates m x u.2) [
  | inl (un, failed) ↦ rw (failed, release_or_undo) (undone-Spares s.manager m n u)
  | inr (i, r, m', is, done, w, len) ↦
      rw (done, release_or_undo)
        (Spares-trans x s.manager m m' (grow-Spares x s.manager m n 0 0 u)
          (rw is (release-Spares m m' i r w)))
]

-- A free block.
abbrev pub Free : BlockManager → ℤ → Type 0
Free m id = (n : ℕ) × (id ≡ pos n) × (get_elem? m.ref_counts n ≡ some 0)

-- What PrepareBlockForWrite has done: no block has lost its last reference, and the block is the
-- one of the entry or one that was free.
abbrev pub Preparing : ℤ → BlockManager → Result ℤ → BlockManager → Type 0
Preparing x m (ok id) m' = SparesAll m m' × ((id ≡ x) ⊎ Free m id)
Preparing x m (err e) m' = SparesAll m m'
Preparing x m stuck m' = false ≡ true

-- A shared block keeps a reference when it is replaced.
shared_release :
    (m m' : BlockManager) (n i c : ℕ)
    → Updates m n 0 1 m'
    → BlockManager.ref_count m (pos i) ≡ pos (suc (suc c))
    → (m'' : BlockManager) × (BlockManager.release m' (pos i) ≡ some m'') × SparesAll m m''
unfolding BlockManager.ref_count
shared_release m m' n i c u shared = elim (release-Updates m' (pos i) u.2) [
  | inl (inl e, failed) ↦ absurd (ground (arith, shared, e, u.0, Updates-count m n 0 1 m' u i))
  | inl (inr e, failed) ↦ absurd (ground (arith, shared, e, u.0, Updates-count m n 0 1 m' u i))
  | inr (k, r, m'', is, done, w, len) ↦ (
    m'',
    done,
    record {
      spares = λ j ne h. ground (
        arith,
        shared,
        u.0,
        w.0,
        Updates-count m n 0 1 m' u i,
        Updates-count m n 0 1 m' u j,
        Updates-count m' k (suc r) r m'' w j,
      );
      spares_valid = w.2;
      spares_capacity =
          (release-Spares m' m'' k r w).spares_capacity ∙ rw u.1 (length-set m.ref_counts n 1);
    },
  )
]

replace_block-Preparing :
    (lb : ℤ) (i c : ℕ) (s : Session)
    → IsValid s.manager
    → BlockManager.ref_count s.manager (pos i) ≡ pos (suc (suc c))
    → let (r, t) = replace_block lb (pos i) s in Preparing (pos i) s.manager r t.manager
unfolding replace_block ◌>>=◌
replace_block-Preparing lb i c s v shared = elim (allocate-Updates s.manager v) [
  | inl (empty, failed) ↦ rw (failed, replace_block) (Spares-refl (negsuc 0) s.manager v)
  | inr (n, m, done, u, len) ↦
      let (m', released, spares) = shared_release s.manager m n i c u shared in
      rw (done, replace_block) (rw (released, release_or_undo) (spares, inr (n, refl, u.0)))
]

-- The counts that the code tells apart.
pub count_cases :
    (z : ℤ)
    → (is_positive z ≡ false)
      ⊎ ((z ≡ pos 1)
          ⊎ ((c : ℕ) × (z ≡ pos (suc (suc c))) × (is_positive z ≡ true) × ((z ==ℤ pos 1) ≡ false)))
count_cases (negsuc n) = inl refl
count_cases (pos zero) = inl refl
count_cases (pos (suc zero)) = inr (inl refl)
count_cases (pos (suc (suc c))) = inr (inr (c, refl, ground arith, ground arith))

pub prepare_block_for_write-Preparing :
    (lb x : ℤ) (s : Session)
    → IsValid s.manager
    → PageTable.get s.context.page_table lb ptr ≡ some x
    → let (r, t) = prepare_block_for_write lb ptr s in Preparing x s.manager r t.manager
unfolding prepare_block_for_write ◌>>=◌ BlockManager.ref_count
prepare_block_for_write-Preparing lb (negsuc n) s v at = elim (Bool-cases (n == 0)) [
  | inl blank ↦ rw (at, blank) (Spares-refl (negsuc 0) s.manager v)
  | inr taken ↦ rw (at, taken) (Spares-refl (negsuc 0) s.manager v)
]
prepare_block_for_write-Preparing lb (pos i) s v at =
    elim (count_cases (BlockManager.ref_count s.manager (pos i))) [
      | inl low ↦ rw (at, low) (Spares-refl (negsuc 0) s.manager v)
      | inr (inl single) ↦ rw (at, single) (Spares-refl (negsuc 0) s.manager v, inl refl)
      | inr (inr (c, shared, positive, several)) ↦
          rw (at, positive, several) (replace_block-Preparing lb i c s v shared)
    ]

-- What UpdateMapping has done: either the entry names the block already, or the block was free.
abbrev pub Updating : ℤ → ℤ → BlockManager → Result (Unit {0}) → BlockManager → Type 0
Updating x id m (ok u) m' =
    (((x ==ℤ id) ≡ true) × SparesAll m m') ⊎ (((x ==ℤ id) ≡ false) × Spares x m m' × Free m id)
Updating x id m (err e) m' = SparesAll m m'
Updating x id m stuck m' = false ≡ true

move_mapping-Updating :
    (lb x id : ℤ) (s : Session)
    → IsValid s.manager
    → (x ==ℤ id) ≡ false
    → let (r, t) = move_mapping lb x id s in Updating x id s.manager r t.manager
unfolding move_mapping ◌>>=◌
move_mapping-Updating lb x id s v ne = elim (allocate_specific-Updates s.manager id v) [
  | inl (taken, failed) ↦ rw (failed, manage) (Spares-refl (negsuc 0) s.manager v)
  | inr (n, m, eq, done, u, len) ↦ elim (Bool-cases (x ==ℤ negsuc 0)) [
    | inl blank ↦
        rw (done, manage) (rw blank (inr (ne, grow-Spares x s.manager m n 0 0 u, (n, eq, u.0))))
    | inr held ↦ elim (release-Updates m x u.2) [
      | inl (un, failed) ↦
          rw (done, manage)
            (rw held (rw (failed, release_or_undo) (rw eq (undone-Spares s.manager m n u))))
      | inr (i, r, m', is, released, w, len') ↦
          rw (done, manage)
            (rw held (
              rw (released, release_or_undo)
                (inr (
                  ne,
                  Spares-trans x s.manager m m' (grow-Spares x s.manager m n 0 0 u)
                      (rw is (release-Spares m m' i r w)),
                  (n, eq, u.0),
                ))))
    ]
  ]
]

pub update_mapping-Updating :
    (lb x id : ℤ) (s : Session)
    → IsValid s.manager
    → PageTable.get s.context.page_table lb ptr ≡ some x
    → let (r, t) = update_mapping lb id s in Updating x id s.manager r t.manager
unfolding update_mapping ◌>>=◌
update_mapping-Updating lb x id s v at = elim (Bool-cases (BlockManager.is_valid s.manager id)) [
  | inr f ↦ rw (at, f) (Spares-refl (negsuc 0) s.manager v)
  | inl t ↦ elim (Bool-cases (x ==ℤ id)) [
    | inl same ↦ rw (at, t, same) (inl (same, Spares-refl (negsuc 0) s.manager v))
    | inr ne ↦ rw (at, t, ne) (move_mapping-Updating lb x id s v ne)
  ]
]

-- What AllocateBlocks has done: the blocks of a success were free, each is named once and has a
-- reference now; a failure takes no reference away.
abbrev pub Allocating : BlockManager → Result (List ℤ) → BlockManager → Type 0
Allocating m (ok ids) m' = SparesAll m m' × Takes m ids m'
Allocating m (err e) m' = SparesAll m m'
Allocating m stuck m' = false ≡ true

Takes-Spares : (m m' : BlockManager) (ids : List ℤ) → Takes m ids m' → SparesAll m m'
Takes-Spares m m' ids t = record {
  spares = λ j ne h. omega (arith, t.counts j);
  spares_valid = t.valid;
  spares_capacity = t.same_capacity;
}

GivesBack-Spares :
    (m m' m'' : BlockManager) (ids : List ℤ)
    → Takes m ids m'
    → GivesBack m' ids m''
    → SparesAll m m''
GivesBack-Spares m m' m'' ids t g = record {
  spares = λ j ne h. omega (arith, t.counts j, g.counts j);
  spares_valid = g.valid;
  spares_capacity = g.same_capacity ∙ t.same_capacity;
}

pub allocate_blocks-Allocating :
    (n : ℕ) (s : Session)
    → IsValid s.manager
    → let (r, t) = allocate_blocks (pos n) s in Allocating s.manager r t.manager
unfolding allocate_blocks
allocate_blocks-Allocating n s v = elim (Bool-cases (ltb (length s.manager.free_list) n)) [
  | inl few ↦
      let (ids, m, e, size, t) = rounds_short n [] s v (ground (arith, few)) in
      rw e (
        GivesBack-Spares s.manager m _ ids t
          (release_ids-GivesBack ids m t.valid (covered s.manager m ids t)))
  | inr fits ↦
      let (ids, m, e, size, t) = rounds_enough n [] s v (ground (arith, fits)) in
      rw e (Takes-Spares s.manager m ids t, t)
]
