-- ===== src/Tests/Contexts.antt =====
-- Contexts over four blocks: a fork, a write to a shared block, and an allocation that fails.
use mmu.Prelude.{
  ℕ, zero, suc, ◌+◌, ℤ, pos, ◌≡◌, refl, List, [], ◌∷◌, ◌++◌, arith, length, tally, to_nat, ◌==◌,
  ◌==ℤ◌, negsuc, if◌then◌else◌, ◌<◌, ◌≤◌,
}
use mmu.Types.{ptr, ok, err, out_of_memory}
use mmu.Exec.{◌>>=◌}
use mmu.BlockManager
use mmu.BlockManager.{BlockManager, count_at}
use mmu.BlockManager.Invariant.{IsValid, init-IsValid, free_at}
use mmu.PageTable
use mmu.Context.{
  Context, Session, new_context, entries_of, allocate_blocks, allocate_rounds, release_ids,
  release_logical_block, update_mapping, prepare_block_for_write, fork, release_all_blocks,
  retain_ids,
}
use mmu.Context.Balance.{
  Moves, mentions, release_logical_block-Moves, prepare_block_for_write-Moves, update_mapping-Moves,
}
use mmu.Context.Fork.{fork_counts, release_all_blocks-fork, entries}
use mmu.Context.Allocation.{
  allocate_blocks-success, allocate_blocks-Moves, allocate_blocks-failure,
  allocate_blocks-unbalanced,
}
use mmu.Context.Rounds.{grown, Takes}

abbrev blank : Session
blank = record { manager = BlockManager.init 4; context = new_context 64 }

-- Two entries of a context whose parent has the same blocks.
abbrev two_blocks : Context
two_blocks = record { page_table = record { entries = pos 0 ∷ pos 1 ∷ [] }; block_size_bytes = 64 }

after_two : allocate_blocks (pos 2) blank ≡ (
  ok (pos 0 ∷ pos 1 ∷ []),
  record {
    manager = record { ref_counts = 1 ∷ 1 ∷ 0 ∷ 0 ∷ []; free_list = 2 ∷ 3 ∷ [] };
    context = two_blocks;
  },
)
unfolding allocate_blocks allocate_rounds BlockManager.init BlockManager.allocate PageTable.append
after_two = refl

blank-IsValid : IsValid blank.manager
blank-IsValid = init-IsValid 4

free_four : length blank.manager.free_list ≡ 4
unfolding BlockManager.init
free_four = refl

-- A parent of a child with the same two blocks.
abbrev shared : Session
shared = record {
  manager = record { ref_counts = 2 ∷ 2 ∷ 0 ∷ 0 ∷ []; free_list = 2 ∷ 3 ∷ [] };
  context = two_blocks;
}

shared-once : (i : ℕ) → tally (λ x. x == i) (2 ∷ 3 ∷ []) ≡ to_nat (free_at (2 ∷ 2 ∷ 0 ∷ 0 ∷ []) i)
shared-once zero = refl
shared-once (suc zero) = refl
shared-once (suc (suc zero)) = refl
shared-once (suc (suc (suc zero))) = refl
shared-once (suc (suc (suc (suc i)))) = ground arith

shared-IsValid : IsValid shared.manager
shared-IsValid = record { once = shared-once; counted = refl }

-- Block 1 is in the page table, as an allocation that fails leaves it, but has no reference.
abbrev stale : BlockManager
stale = record { ref_counts = 2 ∷ 0 ∷ 0 ∷ 0 ∷ []; free_list = 1 ∷ 2 ∷ 3 ∷ [] }

stale-once :
    (i : ℕ) → tally (λ x. x == i) (1 ∷ 2 ∷ 3 ∷ []) ≡ to_nat (free_at (2 ∷ 0 ∷ 0 ∷ 0 ∷ []) i)
stale-once zero = refl
stale-once (suc zero) = refl
stale-once (suc (suc zero)) = refl
stale-once (suc (suc (suc zero))) = refl
stale-once (suc (suc (suc (suc i)))) = ground arith

stale-IsValid : IsValid stale
stale-IsValid = record { once = stale-once; counted = refl }

-- The write gets block 2, and the child keeps block 0.
write_moves : prepare_block_for_write (pos 0) ptr shared ≡ (
  ok (pos 2),
  record {
    manager = record { ref_counts = 1 ∷ 2 ∷ 1 ∷ 0 ∷ []; free_list = 3 ∷ [] };
    context = record two_blocks { page_table = record { entries = pos 2 ∷ pos 1 ∷ [] } };
  },
)
unfolding prepare_block_for_write ◌>>=◌ BlockManager.allocate BlockManager.release
    BlockManager.ref_count PageTable.get PageTable.set
write_moves = refl

-- The table keeps the four entries of the failed request.
short_of_one : allocate_blocks (pos 5) blank ≡ (
  err out_of_memory,
  record blank {
    manager = record { ref_counts = 0 ∷ 0 ∷ 0 ∷ 0 ∷ []; free_list = 3 ∷ 2 ∷ 1 ∷ 0 ∷ [] };
    context = record two_blocks {
      page_table = record { entries = pos 0 ∷ pos 1 ∷ pos 2 ∷ pos 3 ∷ [] };
    };
  },
)
unfolding allocate_blocks allocate_rounds release_ids BlockManager.init BlockManager.allocate
    BlockManager.release PageTable.append
short_of_one = refl

release_logical_block-Moves_example : Moves shared (release_logical_block (pos 0) shared).1
release_logical_block-Moves_example = release_logical_block-Moves (pos 0) shared shared-IsValid

prepare_block_for_write-Moves_example : Moves shared (prepare_block_for_write (pos 0) ptr shared).1
prepare_block_for_write-Moves_example = prepare_block_for_write-Moves (pos 0) shared shared-IsValid

update_mapping-Moves_example : Moves shared (update_mapping (pos 0) (pos 3) shared).1
update_mapping-Moves_example = update_mapping-Moves (pos 0) (pos 3) shared shared-IsValid

fork_counts_example :
    (entries (fork two_blocks stale).context ≡ entries two_blocks)
    × ((j : ℕ)
        → count_at (fork two_blocks stale).manager j ≡ (
            if count_at stale j == 0
            then 0
            else count_at stale j + mentions j (entries two_blocks)))
    × ((fork two_blocks stale).manager.free_list ≡ stale.free_list)
    × IsValid (fork two_blocks stale).manager
fork_counts_example = fork_counts two_blocks stale stale-IsValid

-- The fork shares block 0, and block 1 stays free.
forked_stale : (fork two_blocks stale).manager.ref_counts ≡ 3 ∷ 0 ∷ 0 ∷ 0 ∷ []
unfolding fork retain_ids BlockManager.retain
forked_stale = refl

release_all_blocks-fork_example :
    ((j : ℕ)
      → count_at
          (release_all_blocks (fork two_blocks stale).context (fork two_blocks stale).manager)
          j
        ≡ count_at stale j)
    × IsValid (release_all_blocks (fork two_blocks stale).context (fork two_blocks stale).manager)
release_all_blocks-fork_example = release_all_blocks-fork two_blocks stale stale-IsValid

allocate_blocks-success_example :
    (ids : List ℤ) × (m : BlockManager) × (allocate_blocks (pos 2) shared
      ≡ (ok ids, grown shared m ids))
    × (length ids ≡ 2)
    × Takes shared.manager ids m
allocate_blocks-success_example = allocate_blocks-success 2 shared shared-IsValid (omega arith)

allocate_blocks-Moves_example : Moves shared (allocate_blocks (pos 2) shared).1
allocate_blocks-Moves_example = allocate_blocks-Moves 2 shared shared-IsValid (omega arith)

allocate_blocks-failure_example :
    (ids : List ℤ) × (t : Session) × (allocate_blocks (pos 3) shared ≡ (err out_of_memory, t))
    × (entries_of t ≡ entries_of shared ++ ids)
    × (length ids ≡ length shared.manager.free_list)
    × ((j : ℕ) → mentions j ids ≤ 1)
    × ((k : ℕ) → tally (λ e. e ==ℤ negsuc k) ids ≡ 0)
    × ((j : ℕ) → 0 < mentions j ids → BlockManager.ref_count t.manager (pos j) ≡ pos 0)
    × ((j : ℕ) → count_at t.manager j ≡ count_at shared.manager j)
    × IsValid t.manager
allocate_blocks-failure_example = allocate_blocks-failure 3 shared shared-IsValid (omega arith)

allocate_blocks-unbalanced_example : ¬ Moves shared (allocate_blocks (pos 3) shared).1
allocate_blocks-unbalanced_example =
    allocate_blocks-unbalanced 3 shared shared-IsValid (omega arith) (omega arith)
