-- ===== src/Context/Balance.antt =====
-- Reference counting: the methods of a context move the counts of the block manager by exactly what
-- they change in the page table, but for an allocation of more blocks than are free.
use mmu.Prelude.{
  ℕ, suc, ◌+◌, ℤ, pos, negsuc, ◌==ℤ◌, false, List, none, some, ◌≡◌, refl, ◌⊎◌, inl, inr, arith,
  length, get_elem?, set, tally, ◌==◌, if◌then◌else◌, tally-set, get_elem?-set_self,
  get_elem?-set_ne, length-set, lt_of_get_elem?, Option-cases, Bool-cases,
}
use mmu.Types.{ptr, internal, Result, ok, err}
use mmu.Exec.{◌>>=◌, or_same, continue}
use mmu.BlockManager
use mmu.BlockManager.{BlockManager, count_at}
use mmu.BlockManager.Invariant.{
  IsValid, Updates, release-Updates, allocate-Updates, allocate_specific-Updates,
}
use mmu.PageTable
use mmu.PageTable.{PageTable}
use mmu.Context.{
  Session, entries_of, release_logical_block, release_or_undo, update_mapping, move_mapping,
  prepare_block_for_write, replace_block, set_entry,
}

-- How often block `j` stands in a page table.
abbrev pub mentions : ℕ → List ℤ → ℕ
mentions j = tally (λ e. e ==ℤ pos j)

-- From `s` to `t` the counts have moved with the entries, and the manager stays well-formed.
pub record Moves (s t : Session) : Type 0 where
  pub balanced :
      (j : ℕ)
      → count_at t.manager j + mentions j (entries_of s)
        ≡ count_at s.manager j + mentions j (entries_of t)
  pub valid : IsValid t.manager
  pub same_capacity : length t.manager.ref_counts ≡ length s.manager.ref_counts

pub Updates-count :
    (m : BlockManager) (i old new : ℕ) (m' : BlockManager)
    → Updates m i old new m'
    → (j : ℕ) → count_at m' j ≡ (if i == j then new else count_at m j)
Updates-count m i old new m' (found, changed, valid) j = elim (Bool-cases (i == j)) [
  | inl e ↦
      let e' : i ≡ j = ground arith in
      ground (arith, get_elem?-set_self m.ref_counts i new (lt_of_get_elem? m.ref_counts i found))
  | inr e ↦ ground (arith, get_elem?-set_ne m.ref_counts i j new (ground arith))
]

-- What `get` returns is the entry at an index in range.
pub get_cases :
    (t : PageTable) (logical_block : ℤ)
    → (PageTable.get t logical_block ptr ≡ none)
      ⊎ ((k : ℕ) × (e : ℤ) × (logical_block ≡ pos k)
          × (PageTable.get t logical_block ptr ≡ some e)
          × (get_elem? t.entries k ≡ some e))
unfolding PageTable.get
get_cases t (negsuc n) = inl refl
get_cases t (pos k) = elim (Option-cases (get_elem? t.entries k)) [
  | inl e ↦ inl (ground arith)
  | inr (x, e) ↦ inr (k, x, refl, ground (arith, lt_of_get_elem? t.entries k e), e)
]

pub set_lem :
    (t : PageTable) (k : ℕ) (e v : ℤ)
    → get_elem? t.entries k ≡ some e
    → PageTable.set t (pos k) v ≡ some (record { entries = set t.entries k v })
unfolding PageTable.set
set_lem t k e v h = ground (arith, lt_of_get_elem? t.entries k h)

Moves-same : (s : Session) → IsValid s.manager → Moves s s
Moves-same s v = record { balanced = λ j. refl; valid = v; same_capacity = refl }

-- A release of the block at entry `k`, with that entry cleared.
release_entry-Moves :
    (s : Session) (k i r : ℕ) (m : BlockManager)
    → get_elem? (entries_of s) k ≡ some (pos i)
    → Updates s.manager i (suc r) r m
    → Moves s (record s {
      manager = m;
      context = record s.context {
        page_table = record { entries = set (entries_of s) k (negsuc 0) };
      };
    })
release_entry-Moves s k i r m h u = record {
  balanced = λ j. ground (
    arith,
    Updates-count s.manager i (suc r) r m u j,
    tally-set (λ e. e ==ℤ pos j) (entries_of s) k (negsuc 0) (pos i) h,
  );
  valid = u.2;
  same_capacity = rw u.1 (length-set s.manager.ref_counts i r);
}

abbrev with_entry : Session → BlockManager → ℕ → ℤ → Session
with_entry s m k v = record {
  manager = m;
  context = record s.context { page_table = record { entries = set (entries_of s) k v } };
}

-- The end state decides: it is moved over from an equation.
Moves-of_eq : (s t u : Session) → t ≡ u → Moves s u → Moves s t
Moves-of_eq s t u e h = rw e h

-- On a well-formed manager, releasing a logical block moves the counts with the entries, on every
-- branch.
pub release_logical_block-Moves :
    (logical_block : ℤ) (s : Session)
    → IsValid s.manager
    → Moves s (release_logical_block logical_block s).1
unfolding release_logical_block ◌>>=◌
release_logical_block-Moves lb s v = elim (get_cases s.context.page_table lb) [
  | inl e ↦ rw e (Moves-same s v)
  | inr (k, x, eq, e, at) ↦ elim (release-Updates s.manager x v) [
    | inl (u, failed) ↦ Moves-of_eq s _ s (ground (arith, e, failed)) (Moves-same s v)
    | inr (i, r, m, is, done, u, len) ↦
        Moves-of_eq s _ (with_entry s m k (negsuc 0))
          (ground (arith, e, done, set_lem s.context.page_table k x (negsuc 0) at))
          (release_entry-Moves s k i r m (ground arith) u)
  ]
]

-- The block `n`, taken at a count of 1, takes the place of entry `k`.
fill_entry-Moves :
    (s : Session) (k n : ℕ) (x : ℤ) (m : BlockManager)
    → get_elem? (entries_of s) k ≡ some x
    → ((j : ℕ) → (x ==ℤ pos j) ≡ false)
    → Updates s.manager n 0 1 m
    → Moves s (with_entry s m k (pos n))
fill_entry-Moves s k n x m at absent u = record {
  balanced = λ j. ground (
    arith,
    Updates-count s.manager n 0 1 m u j,
    absent j,
    u.0,
    tally-set (λ e. e ==ℤ pos j) (entries_of s) k (pos n) x at,
  );
  valid = u.2;
  same_capacity = rw u.1 (length-set s.manager.ref_counts n 1);
}

exchange_entry-Moves :
    (s : Session) (k n i r : ℕ) (m m' : BlockManager)
    → get_elem? (entries_of s) k ≡ some (pos i)
    → Updates s.manager n 0 1 m
    → Updates m i (suc r) r m'
    → Moves s (with_entry s m' k (pos n))
exchange_entry-Moves s k n i r m m' at u w = record {
  balanced = λ j. ground (
    arith,
    Updates-count s.manager n 0 1 m u j,
    u.0,
    w.0,
    Updates-count m i (suc r) r m' w j,
    tally-set (λ e. e ==ℤ pos j) (entries_of s) k (pos n) (pos i) at,
  );
  valid = w.2;
  same_capacity = rw (w.1, length-set m.ref_counts i r, u.1) (length-set s.manager.ref_counts n 1);
}

-- Taking a block and giving it back leaves the counts as they were.
undo-Moves :
    (s : Session) (n : ℕ) (m m' : BlockManager)
    → Updates s.manager n 0 1 m
    → Updates m n 1 0 m'
    → Moves s (record s { manager = m' })
undo-Moves s n m m' u w = record {
  balanced =
      λ j. ground (arith, Updates-count s.manager n 0 1 m u j, u.0, Updates-count m n 1 0 m' w j);
  valid = w.2;
  same_capacity = rw (w.1, length-set m.ref_counts n 0, u.1) (length-set s.manager.ref_counts n 1);
}

-- A block with a count of 1 can be released.
release_one :
    (m : BlockManager) (n : ℕ)
    → IsValid m
    → get_elem? m.ref_counts n ≡ some 1
    → (m' : BlockManager) × (BlockManager.release m (pos n) ≡ some m') × Updates m n 1 0 m'
release_one m n v h = elim (release-Updates m (pos n) v) [
  | inl (inl e, failed) ↦ absurd (cc)
  | inl (inr e, failed) ↦ absurd (ground arith)
  | inr (i, r, m', is, done, u, len) ↦
      let same : n ≡ i = ground arith in
      let zero_left : r ≡ 0 = ground arith in (m', done, ground (arith, same, zero_left))
]

-- What a call does to the session when its second release succeeds, and when it fails.
module _ (s : Session) (k n : ℕ) (x : ℤ) (m : BlockManager)
    (at : get_elem? (entries_of s) k ≡ some x) (u : Updates s.manager n 0 1 m) where
  release_or_undo-Moves :
      (then_set : Result (Unit {0}) × Session → Session)
      → ((m' : BlockManager)
          → then_set (err internal, record s { manager = m' }) ≡ record s { manager = m' })
      → ((m' : BlockManager)
          → then_set (ok tt, record s { manager = m' }) ≡ with_entry s m' k (pos n))
      → Moves s (then_set (release_or_undo x (pos n) (record s { manager = m })))
  release_or_undo-Moves then_set on_err on_ok = elim (release-Updates m x u.2) [
    | inl (un, failed) ↦
        let (m', done, w) = release_one m n u.2 (
          rw u.1 (
            get_elem?-set_self s.manager.ref_counts n 1
              (lt_of_get_elem? s.manager.ref_counts n u.0))) in
        rw (failed, release_or_undo) (rw (done, or_same) (rw on_err (undo-Moves s n m m' u w)))
    | inr (i, r, m', is, done, w, len) ↦
        rw (done, release_or_undo)
          (rw on_ok (exchange_entry-Moves s k n i r m m' (rw (← is) at) u w))
  ]

abbrev after_release : ℕ → ℕ → Result (Unit {0}) × Session → Session
after_release k n (r, t) = (continue r (λ _. set_entry (pos k) (pos n)) t).1

after_release_err : (k n : ℕ) (t : Session) → after_release k n (err internal, t) ≡ t
after_release_err k n t = refl

module _ (s : Session) (k n : ℕ) (x : ℤ) (m : BlockManager)
    (at : get_elem? (entries_of s) k ≡ some x) (u : Updates s.manager n 0 1 m) where
  after_release-Moves :
      Moves s (after_release k n (release_or_undo x (pos n) (record s { manager = m })))
  unfolding ◌>>=◌
  after_release-Moves =
      release_or_undo-Moves s k n x m at u (after_release k n) (λ m'. refl)
        (λ m'. rw (set_lem s.context.page_table k x (pos n) at))

replace_block-Moves :
    (s : Session) (k : ℕ) (x : ℤ)
    → IsValid s.manager
    → get_elem? (entries_of s) k ≡ some x
    → Moves s (replace_block (pos k) x s).1
unfolding replace_block ◌>>=◌
replace_block-Moves s k x v at = elim (allocate-Updates s.manager v) [
  | inl (empty, failed) ↦ rw (failed, replace_block) (Moves-same s v)
  | inr (n, m, done, u, len) ↦
      Moves-of_eq s _ _ (ground (arith, done)) (after_release-Moves s k n x m at u)
]

-- On a well-formed manager, preparing a block for a write moves the counts with the entries, on
-- every branch: also when a shared block is replaced, and when that fails.
pub prepare_block_for_write-Moves :
    (logical_block : ℤ) (s : Session)
    → IsValid s.manager
    → Moves s (prepare_block_for_write logical_block ptr s).1
unfolding prepare_block_for_write ◌>>=◌
prepare_block_for_write-Moves lb s v = elim (get_cases s.context.page_table lb) [
  | inl e ↦ rw e (Moves-same s v)
  | inr (k, x, eq, e, at) ↦
      let replaced : Moves s (replace_block lb x s).1 = rw eq (replace_block-Moves s k x v at) in
      ground (arith, e, replaced, Moves-same s v)
]

move_mapping-Moves :
    (s : Session) (k : ℕ) (x id : ℤ)
    → IsValid s.manager
    → get_elem? (entries_of s) k ≡ some x
    → Moves s (move_mapping (pos k) x id s).1
unfolding move_mapping ◌>>=◌
move_mapping-Moves s k x id v at = elim (allocate_specific-Updates s.manager id v) [
  | inl (taken, failed) ↦ Moves-of_eq s _ s (ground (arith, failed)) (Moves-same s v)
  | inr (n, m, eq, done, u, len) ↦ elim (Bool-cases (x ==ℤ negsuc 0)) [
    | inl blank ↦
        Moves-of_eq s _ (with_entry s m k (pos n))
          (ground (arith, done, eq, blank, set_lem s.context.page_table k x (pos n) at))
          (fill_entry-Moves s k n x m at (λ j. ground (arith, blank)) u)
    | inr taken ↦
        Moves-of_eq s _ (after_release k n (release_or_undo x (pos n) (record s { manager = m })))
          (ground (arith, done, eq, taken)) (after_release-Moves s k n x m at u)
  ]
]

-- On a well-formed manager, remapping moves the counts with the entries, on every branch: also when
-- the release of what the entry held before fails and the new block is given back.
pub update_mapping-Moves :
    (logical_block new_block_id : ℤ) (s : Session)
    → IsValid s.manager
    → Moves s (update_mapping logical_block new_block_id s).1
unfolding update_mapping ◌>>=◌
update_mapping-Moves lb id s v = elim (get_cases s.context.page_table lb) [
  | inl e ↦ rw e (Moves-same s v)
  | inr (k, x, eq, e, at) ↦
      let moved : Moves s (move_mapping lb x id s).1 = rw eq (move_mapping-Moves s k x id v at) in
      ground (arith, e, moved, Moves-same s v)
]
