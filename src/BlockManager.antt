-- ===== src/BlockManager.antt =====
-- src/core/block_manager.{h,cpp}: reference counts of the physical blocks, and the free list.
pub mod Invariant
pub mod Conservation
use mmu.Prelude.{
  ℕ, zero, suc, ◌+◌, ◌-◌, ℤ, pos, negsuc, in_range, index, Bool, true, false, not, ◌||◌, List, [],
  ◌∷◌, Option, none, some, length, get_elem?, set, replicate, ◌==◌, if◌then◌else◌,
}
use mmu.Types.{OutPtr, null, ptr}

-- The head of `free_list` is the back of the vector. A count falls only where it was above 0.
pub record BlockManager : Type 0 where
  pub ref_counts : List ℕ
  pub free_list : List ℕ

-- The loop of the constructor pushes total - 1, ..., 0, so block `i` is the next above `i + 1`.
abbrev pub upto : ℕ → ℕ → List ℕ
upto i zero = []
upto i (suc n) = i ∷ upto (suc i) n

unfoldable pub init : ℕ → BlockManager
init total_blocks = record {
  ref_counts = replicate total_blocks 0;
  free_list = upto 0 total_blocks;
}

unfoldable pub is_valid : BlockManager → ℤ → Bool
is_valid m physical_block_id = in_range physical_block_id (length m.ref_counts)

-- ref_counts_[i], for a valid `i`.
abbrev pub count_at : BlockManager → ℕ → ℕ
count_at m i = elim (get_elem? m.ref_counts i) [ none ↦ 0 | some r ↦ r ]

unfoldable pub ref_count : BlockManager → ℤ → ℤ
unfolding is_valid
ref_count m physical_block_id =
    if is_valid m physical_block_id then pos (count_at m (index physical_block_id)) else negsuc 0

unfoldable pub free_blocks : BlockManager → ℕ
free_blocks m = length m.free_list

unfoldable pub capacity : BlockManager → ℕ
capacity m = length m.ref_counts

abbrev take_back : BlockManager → List ℕ → Option (ℤ × BlockManager)
take_back m [] = none
take_back m (pbid ∷ rest) =
    some (pos pbid, record { ref_counts = set m.ref_counts pbid 1; free_list = rest })

-- `none` is `false`.
unfoldable pub allocate : BlockManager → OutPtr → Option (ℤ × BlockManager)
allocate m null = none
allocate m ptr = take_back m m.free_list

abbrev pub contains : List ℕ → ℕ → Bool
contains [] i = false
contains (x ∷ xs) i = x == i || contains xs i

-- std::find and erase. The ids of the list are distinct, so the search may start at either end.
abbrev pub erase : List ℕ → ℕ → List ℕ
erase [] i = []
erase (x ∷ xs) i = if x == i then xs else x ∷ erase xs i

unfoldable pub allocate_specific : BlockManager → ℤ → Option BlockManager
unfolding is_valid
allocate_specific m physical_block_id =
    if not (is_valid m physical_block_id)
    then none
    else if not (contains m.free_list (index physical_block_id))
    then none
    else some (record {
      ref_counts = set m.ref_counts (index physical_block_id) 1;
      free_list = erase m.free_list (index physical_block_id);
    })

unfoldable pub retain : BlockManager → ℤ → Option BlockManager
unfolding is_valid
retain m physical_block_id =
    let i = index physical_block_id in
    if not (is_valid m physical_block_id)
    then none
    else if count_at m i == 0
    then none
    else some (record m { ref_counts = set m.ref_counts i (count_at m i + 1) })

unfoldable pub release : BlockManager → ℤ → Option BlockManager
unfolding is_valid
release m physical_block_id =
    let i = index physical_block_id in
    if not (is_valid m physical_block_id)
    then none
    else if count_at m i == 0
    then none
    else some (record {
      ref_counts = set m.ref_counts i (count_at m i - 1);
      free_list = if count_at m i - 1 == 0 then i ∷ m.free_list else m.free_list;
    })
