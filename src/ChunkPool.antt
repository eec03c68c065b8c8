-- ===== src/ChunkPool.antt =====
-- `struct ChunkPool` of src/mmu_api.cpp, with the bytes behind its chunks.
use mmu.Prelude.{
  ℕ, ◌-◌, ℤ, in_range, index, Bool, not, ◌&&◌, List, [], ◌∷◌, Option, none, some, length, get_elem?,
  set, replicate, ltb, ◌==◌, if◌then◌else◌,
}
use mmu.Types.{PagePtr}

-- The bytes of one page by offset. Only the first `block_size_bytes` are ever written or read.
abbrev pub Page : Type 0
Page = ℕ → ℕ

-- `chunks` has each chunk's size in blocks, in the order of allocation. The head of `free_blocks`
-- is the back of the vector.
pub record ChunkPool : Type 0 where
  pub chunks : List ℕ
  pub free_blocks : List PagePtr
  pub owner_pages : List (Option PagePtr)
  pub committed_pages : ℕ
  pub memory : PagePtr → Page

abbrev pub zero_page : Page
zero_page b = 0

unfoldable pub init : ℕ → ChunkPool
init block_count = record {
  chunks = [];
  free_blocks = [];
  owner_pages = replicate block_count none;
  committed_pages = 0;
  memory = λ _. zero_page;
}

abbrev pub slot_of : Option (Option PagePtr) → Option PagePtr
slot_of none = none
slot_of (some slot) = slot

-- owner_pages[i], for an `i` in range.
unfoldable pub owner : ChunkPool → ℕ → Option PagePtr
owner p i = slot_of (get_elem? p.owner_pages i)

unfoldable pub raw_page : ChunkPool → ℤ → Option PagePtr
unfolding owner
raw_page p physical_block_id = owner p (index physical_block_id)

abbrev pub same_ptr : PagePtr → PagePtr → Bool
same_ptr q r = q.chunk == r.chunk && q.block == r.block

-- `size` bytes of `src` over the start of `dst`, as memcpy does.
abbrev pub overwrite : ℕ → Page → Page → Page
overwrite size src dst b = if ltb b size then src b else dst b

abbrev pub write_page : ChunkPool → PagePtr → ℕ → Page → ChunkPool
write_page p q size src = record p {
  memory = λ r. if same_ptr q r then overwrite size src (p.memory r) else p.memory r;
}

-- CopyOrZero: the bytes to copy, all 0 where the source is null.
unfoldable pub bytes_or_zero : ChunkPool → Option PagePtr → Page
bytes_or_zero p none = zero_page
bytes_or_zero p (some q) = p.memory q

release_slot : ChunkPool → ℕ → Option PagePtr → ChunkPool
release_slot p i none = p
release_slot p i (some q) = record p {
  free_blocks = q ∷ p.free_blocks;
  owner_pages = set p.owner_pages i none;
  committed_pages = if ltb 0 p.committed_pages then p.committed_pages - 1 else p.committed_pages;
}

unfoldable pub release_page : ChunkPool → ℤ → ChunkPool
unfolding release_slot owner
release_page p physical_block_id =
    if not (in_range physical_block_id (length p.owner_pages))
    then p
    else release_slot p (index physical_block_id) (owner p (index physical_block_id))

-- CountCommittedPages and CountAllocatedChunks
unfoldable pub count_committed_pages : ChunkPool → ℕ
count_committed_pages p = p.committed_pages

unfoldable pub count_allocated_chunks : ChunkPool → ℕ
count_allocated_chunks p = length p.chunks
