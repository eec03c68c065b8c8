-- ===== src/Context/Holding.antt =====
-- PrepareBlockForWrite: where it succeeds, the block that it returns has one reference.
use mmu.Prelude.{ℕ, suc, ℤ, pos, negsuc, ◌≡◌, arith, some, inl, inr, Bool-cases, ◌==◌}
use mmu.Types.{ptr, ok}
use mmu.Exec.{◌>>=◌, pure}
use mmu.BlockManager
use mmu.BlockManager.{BlockManager, count_at}
use mmu.BlockManager.Invariant.{IsValid, Updates, release-Updates, allocate-Updates}
use mmu.PageTable
use mmu.Context.{Session, prepare_block_for_write, replace_block, release_or_undo}
use mmu.Context.Balance.{Updates-count}
use mmu.Context.Freeing.{count_cases}

-- The new block `n`, after the release of another that was shared.
new_held :
    (m m' : BlockManager) (n i c k r : ℕ) (m'' : BlockManager)
    → Updates m n 0 1 m'
    → BlockManager.ref_count m (pos i) ≡ pos (suc (suc c))
    → pos i ≡ pos k
    → Updates m' k (suc r) r m''
    → count_at m'' n ≡ 1
unfolding BlockManager.ref_count
new_held m m' n i c k r m'' u shared is w =
    ground
      (arith, shared, is, u.0, Updates-count m n 0 1 m' u n, Updates-count m' k (suc r) r m'' w n)

replace_block-holds :
    (lb : ℤ) (i c n : ℕ) (s : Session)
    → IsValid s.manager
    → BlockManager.ref_count s.manager (pos i) ≡ pos (suc (suc c))
    → (replace_block lb (pos i) s).0 ≡ ok (pos n)
    → count_at (replace_block lb (pos i) s).1.manager n ≡ 1
unfolding replace_block ◌>>=◌
replace_block-holds lb i c n s v shared gives = elim (allocate-Updates s.manager v) [
  | inl (empty, failed) ↦ absurd (cc (rw (failed, replace_block) at gives))
  | inr (n', m, done, u, len) ↦ elim (release-Updates m (pos i) u.2) [
    | inl (un, failed) ↦
        absurd (cc (rw (failed, release_or_undo) at (rw (done, replace_block) at gives)))
    | inr (k, r, m', is, released, w, len') ↦
        let same : n' ≡ n =
          cc (rw (released, release_or_undo) at (rw (done, replace_block) at gives)) in
        rw (done, replace_block)
          (rw (released, release_or_undo, ← same)
            (new_held s.manager m n' i c k r m' u shared is w))
  ]
]

pub prepare_block_for_write-holds :
    (lb x : ℤ) (n : ℕ) (s : Session)
    → IsValid s.manager
    → PageTable.get s.context.page_table lb ptr ≡ some x
    → (prepare_block_for_write lb ptr s).0 ≡ ok (pos n)
    → count_at (prepare_block_for_write lb ptr s).1.manager n ≡ 1
unfolding prepare_block_for_write ◌>>=◌ pure BlockManager.ref_count
prepare_block_for_write-holds lb (negsuc j) n s v at gives = elim (Bool-cases (j == 0)) [
  | inl blank ↦ absurd (cc (rw (at, blank) at gives))
  | inr taken ↦ absurd (cc (rw (at, taken) at gives))
]
prepare_block_for_write-holds lb (pos i) n s v at gives =
    elim (count_cases (BlockManager.ref_count s.manager (pos i))) [
      | inl low ↦ absurd (cc (rw (at, low) at gives))
      | inr (inl single) ↦
          let same : i ≡ n = cc (rw (at, single) at gives) in
          rw (at, single) (ground (arith, single, same))
      | inr (inr (c, shared, positive, several)) ↦
          rw (at, positive, several)
            (replace_block-holds lb i c n s v shared (rw (at, positive, several) at gives))
    ]
