-- ===== src/PageTable.antt =====
-- src/core/page_table.{h,cpp}: the logical blocks of one context, each with the id of its
-- physical block. A `LogicalEntry` has that one field.
use mmu.Prelude.{
  ℕ, ℤ, in_range, index, not, List, [], ◌∷◌, ◌++◌, Option, none, some, length, get_elem?,
  if◌then◌else◌,
}
use mmu.Prelude
use mmu.Types.{OutPtr, null, ptr}

abbrev pub LogicalEntry : Type 0
LogicalEntry = ℤ

pub record PageTable : Type 0 where
  pub entries : List LogicalEntry

abbrev pub empty : PageTable
empty = record { entries = [] }

-- It returns `true` always.
unfoldable pub append : PageTable → ℤ → PageTable
append t block_id = record { entries = t.entries ++ block_id ∷ [] }

unfoldable pub get : PageTable → ℤ → OutPtr → Option LogicalEntry
get t logical_block_id null = none
get t logical_block_id ptr =
    if not (in_range logical_block_id (length t.entries))
    then none
    else get_elem? t.entries (index logical_block_id)

unfoldable pub set : PageTable → ℤ → LogicalEntry → Option PageTable
set t logical_block_id entry =
    if not (in_range logical_block_id (length t.entries))
    then none
    else some (record { entries = Prelude.set t.entries (index logical_block_id) entry })

unfoldable pub size : PageTable → ℕ
size t = length t.entries
