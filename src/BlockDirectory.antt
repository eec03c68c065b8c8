-- ===== src/BlockDirectory.antt =====
-- src/core/block_directory.{h,cpp}: what is known of each physical block, by its id.
pub mod Writes
use mmu.Prelude.{
  ℕ, ◌-◌, ℤ, negsuc, in_range, index, Bool, true, false, not, List, Option, none, some, length,
  get_elem?, set, replicate, ◌==◌, if◌then◌else◌, inc32,
}
use mmu.Types.{Tier, l1, l2, OutPtr, null, ptr}

-- kInvalidBlockId, kInvalidFrameId, kInvalidSlotId
abbrev pub invalid_id : ℤ
invalid_id = negsuc 0

pub record BlockMeta : Type 0 where
  pub allocated : Bool
  pub tier : Tier
  pub resident_in_l1 : Bool
  pub dirty : Bool
  pub pin_count : ℕ
  pub last_access_epoch : ℕ
  pub l1_frame_id : ℤ
  pub l2_slot_id : ℤ
  pub has_l2_backing : Bool

pub record BlockDirectory : Type 0 where
  pub metas : List BlockMeta

abbrev pub fresh_meta : BlockMeta
fresh_meta = record {
  allocated = true;
  tier = l1;
  resident_in_l1 = false;
  dirty = false;
  pin_count = 0;
  last_access_epoch = 0;
  l1_frame_id = invalid_id;
  l2_slot_id = invalid_id;
  has_l2_backing = false;
}

abbrev pub default_meta : BlockMeta
default_meta = record fresh_meta { allocated = false; tier = l2 }

unfoldable pub init : ℕ → BlockDirectory
init capacity = record { metas = replicate capacity default_meta }

unfoldable pub is_valid : BlockDirectory → ℤ → Bool
is_valid d block_id = in_range block_id (length d.metas)

-- `none` is the null pointer. The pointer is read at once, so the entry stands for it.
unfoldable pub get : BlockDirectory → ℤ → Option BlockMeta
unfolding is_valid
get d block_id = if not (is_valid d block_id) then none else get_elem? d.metas (index block_id)

abbrev write_some :
    BlockDirectory → ℤ → (BlockMeta → BlockMeta) → Option BlockMeta → Option BlockDirectory
write_some d block_id f none = none
write_some d block_id f (some meta) =
    some (record { metas = set d.metas (index block_id) (f meta) })

-- A write through the pointer of `mutable_get`; `none` if that is null.
unfoldable pub mutable_get : BlockDirectory → ℤ → (BlockMeta → BlockMeta) → Option BlockDirectory
unfolding get
mutable_get d block_id f = write_some d block_id f (get d block_id)

unfoldable pub initialize_fresh_block : BlockDirectory → ℤ → Option BlockDirectory
unfolding is_valid
initialize_fresh_block d block_id =
    if not (is_valid d block_id)
    then none
    else some (record { metas = set d.metas (index block_id) fresh_meta })

unfoldable pub reset : BlockDirectory → ℤ → BlockDirectory
unfolding is_valid
reset d block_id =
    if not (is_valid d block_id)
    then d
    else record { metas = set d.metas (index block_id) default_meta }

unfoldable pub snapshot : BlockDirectory → ℤ → OutPtr → Option BlockMeta
unfolding get
snapshot d block_id null = none
snapshot d block_id ptr = get d block_id

module _ (d : BlockDirectory) (block_id : ℤ) where
  unfoldable pub set_tier : Tier → Option BlockDirectory
  unfolding mutable_get
  set_tier tier = mutable_get d block_id (λ meta. record meta { tier = tier })

  unfoldable pub set_resident_in_l1 : Bool → Option BlockDirectory
  unfolding mutable_get
  set_resident_in_l1 resident =
      mutable_get d block_id (λ meta. record meta { resident_in_l1 = resident })

  unfoldable pub set_dirty : Bool → Option BlockDirectory
  unfolding mutable_get
  set_dirty dirty = mutable_get d block_id (λ meta. record meta { dirty = dirty })

  unfoldable pub set_pin_count : ℕ → Option BlockDirectory
  unfolding mutable_get
  set_pin_count pin_count = mutable_get d block_id (λ meta. record meta { pin_count = pin_count })

  unfoldable pub increment_pin_count : Option BlockDirectory
  unfolding mutable_get
  increment_pin_count =
      mutable_get d block_id (λ meta. record meta { pin_count = inc32 meta.pin_count })

  unfoldable pub set_last_access_epoch : ℕ → Option BlockDirectory
  unfolding mutable_get
  set_last_access_epoch epoch =
      mutable_get d block_id (λ meta. record meta { last_access_epoch = epoch })

  unfoldable pub set_l1_frame_id : ℤ → Option BlockDirectory
  unfolding mutable_get
  set_l1_frame_id frame_id = mutable_get d block_id (λ meta. record meta { l1_frame_id = frame_id })

  unfoldable pub set_l2_slot_id : ℤ → Option BlockDirectory
  unfolding mutable_get
  set_l2_slot_id slot_id = mutable_get d block_id (λ meta. record meta { l2_slot_id = slot_id })

  unfoldable pub set_has_l2_backing : Bool → Option BlockDirectory
  unfolding mutable_get
  set_has_l2_backing has_l2_backing =
      mutable_get d block_id (λ meta. record meta { has_l2_backing = has_l2_backing })

  decrement_some : Option BlockMeta → Option BlockDirectory
  unfolding mutable_get
  decrement_some none = none
  decrement_some (some meta) =
      if meta.pin_count == 0
      then none
      else mutable_get d block_id (λ m. record m { pin_count = m.pin_count - 1 })

  unfoldable pub decrement_pin_count : Option BlockDirectory
  unfolding decrement_some get
  decrement_pin_count = decrement_some (get d block_id)
