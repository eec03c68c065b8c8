-- ===== src/Tests/Blocks.antt =====
-- The block manager on four blocks.
use mmu.Prelude.{
  ℕ, suc, ◌+◌, pos, negsuc, ◌≡◌, ◌≢◌, refl, ◌⊎◌, [], ◌∷◌, none, some, length, get_elem?, to_nat,
  ◌==◌,
}
use mmu.Types.{ptr}
use mmu.BlockManager.{BlockManager, init, allocate, allocate_specific, retain, release, ref_count}
use mmu.BlockManager.Invariant.{
  IsValid, Updates, Unreferenced, init-IsValid, allocate-Updates, retain-Updates, release-Updates,
  allocate_specific-Updates,
}
use mmu.BlockManager.Conservation.{release-allocate}

abbrev four : BlockManager
four = init 4

-- Block 0 has two references and block 1 has one.
abbrev shared : BlockManager
shared = record { ref_counts = 2 ∷ 1 ∷ 0 ∷ 0 ∷ []; free_list = 2 ∷ 3 ∷ [] }

first_is_zero :
    allocate four ptr
    ≡ some (pos 0, record { ref_counts = 1 ∷ 0 ∷ 0 ∷ 0 ∷ []; free_list = 1 ∷ 2 ∷ 3 ∷ [] })
unfolding init allocate
first_is_zero = refl

specific_is_taken :
    allocate_specific four (pos 2)
    ≡ some (record { ref_counts = 0 ∷ 0 ∷ 1 ∷ 0 ∷ []; free_list = 0 ∷ 1 ∷ 3 ∷ [] })
unfolding init allocate_specific
specific_is_taken = refl

out_of_range : ref_count four (negsuc 0) ≡ negsuc 0
unfolding init ref_count
out_of_range = refl

one_taken : BlockManager
one_taken = record { ref_counts = 1 ∷ 0 ∷ 0 ∷ 0 ∷ []; free_list = 1 ∷ 2 ∷ 3 ∷ [] }

init-IsValid_example : IsValid (init 4)
init-IsValid_example = init-IsValid 4

allocate-Updates_example :
    ((four.free_list ≡ []) × (allocate four ptr ≡ none))
    ⊎ ((i : ℕ) × (m' : BlockManager) × (allocate four ptr ≡ some (pos i, m'))
        × Updates four i 0 1 m'
        × (suc (length m'.free_list) ≡ length four.free_list))
allocate-Updates_example = allocate-Updates four (init-IsValid 4)

allocate_specific-Updates_example :
    (((i : ℕ) → pos 2 ≡ pos i → get_elem? four.ref_counts i ≢ some 0)
      × (allocate_specific four (pos 2) ≡ none))
    ⊎ ((i : ℕ) × (m' : BlockManager) × (pos 2 ≡ pos i)
        × (allocate_specific four (pos 2) ≡ some m')
        × Updates four i 0 1 m'
        × (suc (length m'.free_list) ≡ length four.free_list))
allocate_specific-Updates_example = allocate_specific-Updates four (pos 2) (init-IsValid 4)

retain-Updates_example :
    (Unreferenced four (pos 1) × (retain four (pos 1) ≡ none))
    ⊎ ((i : ℕ) × (r : ℕ) × (m' : BlockManager) × (pos 1 ≡ pos i)
        × (retain four (pos 1) ≡ some m')
        × Updates four i (suc r) (suc (suc r)) m'
        × (m'.free_list ≡ four.free_list))
retain-Updates_example = retain-Updates four (pos 1) (init-IsValid 4)

release-Updates_example :
    (Unreferenced four (pos 1) × (release four (pos 1) ≡ none))
    ⊎ ((i : ℕ) × (r : ℕ) × (m' : BlockManager) × (pos 1 ≡ pos i)
        × (release four (pos 1) ≡ some m')
        × Updates four i (suc r) r m'
        × (length m'.free_list ≡ length four.free_list + to_nat (r == 0)))
release-Updates_example = release-Updates four (pos 1) (init-IsValid 4)

release-allocate_example : release one_taken (pos 0) ≡ some four
unfolding one_taken init allocate
release-allocate_example = release-allocate four one_taken (pos 0) (init-IsValid 4) refl
