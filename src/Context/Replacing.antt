-- ===== src/Context/Replacing.antt =====
-- PrepareBlockForWrite: where it succeeds, the entry is the block that it returns.
use mmu.Prelude.{
  ℕ, ℤ, pos, negsuc, ◌==ℤ◌, ◌≡◌, ap, ◌∙◌, arith, some, length, ltb, Bool-cases, Option-cases, inl,
  inr, get_elem?-set_self, length-set,
}
use mmu.Types.{ptr, ok}
use mmu.Exec.{pure, or_same, ◌>>=◌}
use mmu.BlockManager
use mmu.PageTable
use mmu.PageTable.{PageTable}
use mmu.Context.{Session, prepare_block_for_write, replace_block, is_positive, release_or_undo}

-- An entry that is there can be set, and is read back.
set-get :
    (t : PageTable) (lb : ℕ) (x id : ℤ)
    → PageTable.get t (pos lb) ptr ≡ some x
    → PageTable.get (or_same t (PageTable.set t (pos lb) id)) (pos lb) ptr ≡ some id
unfolding PageTable.get PageTable.set
set-get t lb x id h = elim (Bool-cases (ltb lb (length t.entries))) [
  | inl inside ↦
      ground (arith, inside, length-set t.entries lb id, get_elem?-set_self t.entries lb id)
  | inr out ↦ absurd (ground (arith, out, h))
]

replace_block-entry :
    (lb : ℕ) (x id : ℤ) (s : Session)
    → PageTable.get s.context.page_table (pos lb) ptr ≡ some x
    → (replace_block (pos lb) x s).0 ≡ ok id
    → PageTable.get (replace_block (pos lb) x s).1.context.page_table (pos lb) ptr ≡ some id
unfolding replace_block ◌>>=◌
replace_block-entry lb x id s at done = elim (Option-cases (BlockManager.allocate s.manager ptr)) [
  | inl e ↦ absurd (cc (rw (e, replace_block) at done))
  | inr ((n, m), e) ↦ elim (Option-cases (BlockManager.release m x)) [
    | inl f ↦ absurd (cc (rw (f, release_or_undo) at (rw (e, replace_block) at done)))
    | inr (m', f) ↦
        let same : n ≡ id = cc (rw (f, release_or_undo) at (rw (e, replace_block) at done)) in
        rw (e, replace_block)
          (rw (f, release_or_undo, ← same) (set-get s.context.page_table lb x n at))
  ]
]

pub prepare_block_for_write-entry :
    (lb : ℕ) (x id : ℤ) (s : Session)
    → PageTable.get s.context.page_table (pos lb) ptr ≡ some x
    → (prepare_block_for_write (pos lb) ptr s).0 ≡ ok id
    → PageTable.get (prepare_block_for_write (pos lb) ptr s).1.context.page_table (pos lb) ptr
      ≡ some id
unfolding prepare_block_for_write ◌>>=◌ pure
prepare_block_for_write-entry lb x id s at done = elim (Bool-cases (x ==ℤ negsuc 0)) [
  | inl blank ↦ absurd (cc (rw (at, blank) at done))
  | inr taken ↦ elim (Bool-cases (is_positive (BlockManager.ref_count s.manager x))) [
    | inr low ↦ absurd (cc (rw (at, taken, low) at done))
    | inl used ↦ elim (Bool-cases (BlockManager.ref_count s.manager x ==ℤ pos 1)) [
      | inl single ↦
          let same : x ≡ id = cc (rw (at, taken, used, single) at done) in
          rw (at, taken, used, single) (at ∙ ap some same)
      | inr shared ↦
          rw (at, taken, used, shared)
            (replace_block-entry lb x id s at (rw (at, taken, used, shared) at done))
    ]
  ]
]
