-- ===== src/Data/Sharing.antt =====
-- Every call on a runtime leaves each page to at most one block.
pub mod Calls
use mmu.Prelude.{
  ℕ, zero, suc, ℤ, pos, negsuc, ◌≡◌, refl, Bool, Option, none, some, List, [], ◌∷◌, if◌then◌else◌,
  Bool-cases, inl, inr, ◌==ℤ◌, arith,
}
use mmu.Types.{Tier, PagePtr, OutPtr, ptr}
use mmu.Exec.{Exec, ◌>>=◌}
use mmu.Exec.Keeps.{Keeps, Order, Keeps-bind, Keeps-if, Keeps-gets, Keeps-pure, keeps_rules}
use mmu.BlockManager
use mmu.BlockDirectory
use mmu.BlockDirectory.{BlockDirectory, BlockMeta}
use mmu.Runtime.{Runtime, Pool, directory, touch_block, block_meta_for}
use mmu.Paging.{acquire_page, copy_or_zero, sync_l1_to_l2, sync_l2_to_l1}
use mmu.Paging.Apart.{same_uses-IsApart, release_page-IsApart}
use mmu.Residency.{
  reset_block_data, forget_block, reclaim_block, reclaim_from, move_block_to_l2,
  reclaim_unused_resident_blocks, evict_one, again, evict_while_full, promote, keep_resident,
  ensure_resident_in_l1, register_fresh_block, admit_fresh, park_fresh, place_fresh, is_resident,
  one_fewer,
}
use mmu.Cow.{clone_block_data_for_cow, cow_source}
use mmu.ChunkPool.{release_page}
use mmu.Data.{Apart, by_pool}
use mmu.Data.Acquiring.{acquire_page-Acquires}

-- If no page was used twice, then none is.
abbrev pub StaysApart : Runtime → Runtime → Type 0
StaysApart a b = Apart a → Apart b

pub StaysApart-order : Order StaysApart
StaysApart-order = record { rel_refl = λ a h. h; rel_trans = λ a b c f g h. g (f h) }

pub acquire_page-StaysApart : (p : Pool) (id : ℤ) → Keeps StaysApart (acquire_page p id ptr)
unfolding acquire_page ◌>>=◌
acquire_page-StaysApart p (pos i) = record {
  at = λ rt h. (acquire_page-Acquires p i rt h).acquires_apart;
}
acquire_page-StaysApart p (negsuc i) = record { at = λ rt h. h }

pub copy_or_zero-StaysApart :
    (src dst : Pool) (source : Option PagePtr) (target : PagePtr) (rt : Runtime)
    → StaysApart rt (copy_or_zero src dst source target rt)
copy_or_zero-StaysApart src Pool.l1_pool source target rt h =
    by_pool _ (same_uses-IsApart rt.l1_pool _ (h Pool.l1_pool) refl λ q. refl) (h Pool.l2_pool)
copy_or_zero-StaysApart src Pool.l2_pool source target rt h =
    by_pool _ (h Pool.l1_pool) (same_uses-IsApart rt.l2_pool _ (h Pool.l2_pool) refl λ q. refl)

-- What leaves the pools alone.
pub directory-StaysApart :
    (f : BlockDirectory → Option BlockDirectory) (rt : Runtime) → StaysApart rt (directory f rt)
directory-StaysApart f rt h = by_pool _ (h Pool.l1_pool) (h Pool.l2_pool)

pub touch_block-StaysApart : (id : ℤ) (rt : Runtime) → StaysApart rt (touch_block id rt)
unfolding touch_block
touch_block-StaysApart id rt h = by_pool _ (h Pool.l1_pool) (h Pool.l2_pool)

pub count-StaysApart : (n : ℕ) (rt : Runtime) → StaysApart rt (record rt { resident_count = n })
count-StaysApart n rt h = by_pool _ (h Pool.l1_pool) (h Pool.l2_pool)

pub release_l1-StaysApart :
    (id : ℤ) (rt : Runtime) → StaysApart rt (record rt { l1_pool = release_page rt.l1_pool id })
unfolding release_page
release_l1-StaysApart (pos i) rt h =
    by_pool _ (release_page-IsApart rt.l1_pool i (h Pool.l1_pool)) (h Pool.l2_pool)
release_l1-StaysApart (negsuc i) rt h = by_pool _ (h Pool.l1_pool) (h Pool.l2_pool)

reset-StaysApart : (id : ℤ) (rt : Runtime) → StaysApart rt (reset_block_data id rt)
unfolding reset_block_data release_page
reset-StaysApart (pos i) rt h =
    by_pool _ (release_page-IsApart rt.l1_pool i (h Pool.l1_pool))
      (release_page-IsApart rt.l2_pool i (h Pool.l2_pool))
reset-StaysApart (negsuc i) rt h = by_pool _ (h Pool.l1_pool) (h Pool.l2_pool)

pub ruleset apart_rules = (
  keeps_rules, StaysApart-order, acquire_page-StaysApart, copy_or_zero-StaysApart,
  directory-StaysApart, touch_block-StaysApart, count-StaysApart, release_l1-StaysApart,
)

pub sync_l1_to_l2-StaysApart : (id : ℤ) → Keeps StaysApart (sync_l1_to_l2 id)
unfolding sync_l1_to_l2
sync_l1_to_l2-StaysApart id = search apart_rules depth 20

pub sync_l2_to_l1-StaysApart : (id : ℤ) → Keeps StaysApart (sync_l2_to_l1 id)
unfolding sync_l2_to_l1
sync_l2_to_l1-StaysApart id = search apart_rules depth 20

pub move_block_to_l2-StaysApart : (id : ℤ) → Keeps StaysApart (move_block_to_l2 id)
unfolding move_block_to_l2
move_block_to_l2-StaysApart id = search (apart_rules, sync_l1_to_l2-StaysApart) depth 30

evict_one-StaysApart : (id : ℤ) → Keeps StaysApart (evict_one id)
unfolding evict_one
evict_one-StaysApart id = search (apart_rules, move_block_to_l2-StaysApart) depth 20

again-StaysApart :
    (m : Exec Runtime (Unit {0})) (p : ℤ) → Keeps StaysApart m → Keeps StaysApart (again m p)
unfolding again
again-StaysApart m p h = Keeps-bind StaysApart-order _ _ (Keeps-gets StaysApart-order _) λ full.
    Keeps-if StaysApart-order full _ _
      (Keeps-bind StaysApart-order _ _ (evict_one-StaysApart p) λ _. h)
      (Keeps-pure StaysApart-order tt)

evict_while_full-StaysApart : (n : ℕ) (p : ℤ) → Keeps StaysApart (evict_while_full n p)
unfolding evict_while_full
evict_while_full-StaysApart zero p = record { at = λ rt h. h }
evict_while_full-StaysApart (suc n) p = record {
  at = (again-StaysApart (evict_while_full n p) p (evict_while_full-StaysApart n p)).at;
}

promote-StaysApart : (id : ℤ) → Keeps StaysApart (promote id)
unfolding promote
promote-StaysApart id =
    search (apart_rules, evict_while_full-StaysApart, sync_l2_to_l1-StaysApart) depth 30

keep_resident-StaysApart : (id : ℤ) → Keeps StaysApart (keep_resident id)
unfolding keep_resident
keep_resident-StaysApart id = search apart_rules depth 20

dropped-StaysApart :
    (id : ℤ) (rt : Runtime)
    → StaysApart rt (directory (λ d. some (BlockDirectory.reset d id)) (reset_block_data id rt))
dropped-StaysApart id rt h =
    directory-StaysApart (λ d. some (BlockDirectory.reset d id)) (reset_block_data id rt)
      (reset-StaysApart id rt h)

one_fewer-StaysApart : (rt : Runtime) → StaysApart rt (one_fewer rt)
one_fewer-StaysApart rt h = by_pool _ (h Pool.l1_pool) (h Pool.l2_pool)

pub forget_block-StaysApart : (id : ℤ) (rt : Runtime) → StaysApart rt (forget_block id rt)
unfolding forget_block
forget_block-StaysApart id rt h = elim (Bool-cases (is_resident (block_meta_for id rt))) [
  | inl t ↦ rw t (dropped-StaysApart id (one_fewer rt) (one_fewer-StaysApart rt h))
  | inr f ↦ rw f (dropped-StaysApart id rt h)
]

pub reclaim_block-StaysApart : (id : ℤ) (rt : Runtime) → StaysApart rt (reclaim_block id rt)
unfolding reclaim_block
reclaim_block-StaysApart id rt h =
    elim (Bool-cases (BlockManager.ref_count rt.l1_allocator id ==ℤ pos 0)) [
      | inl t ↦ rw t (forget_block-StaysApart id rt h)
      | inr f ↦ rw f h
    ]

reclaim_from-StaysApart : (n i : ℕ) (rt : Runtime) → StaysApart rt (reclaim_from i n rt)
unfolding reclaim_from
reclaim_from-StaysApart zero i rt h = h
reclaim_from-StaysApart (suc n) i rt h =
    reclaim_from-StaysApart n (suc i) (reclaim_block (pos i) rt)
      (reclaim_block-StaysApart (pos i) rt h)

pub reclaim-StaysApart : (rt : Runtime) → StaysApart rt (reclaim_unused_resident_blocks rt)
unfolding reclaim_unused_resident_blocks
reclaim-StaysApart rt = reclaim_from-StaysApart rt.config.l1_block_count 0 rt

pub ensure_resident_in_l1-StaysApart : (id : ℤ) → Keeps StaysApart (ensure_resident_in_l1 id)
unfolding ensure_resident_in_l1
ensure_resident_in_l1-StaysApart id =
    search (apart_rules, reclaim-StaysApart, keep_resident-StaysApart, promote-StaysApart) depth 30

place_fresh-StaysApart :
    (m : Option BlockMeta) (id : ℤ) (rt : Runtime) → StaysApart rt (place_fresh m id rt)
unfolding admit_fresh park_fresh touch_block
place_fresh-StaysApart none id rt h = h
place_fresh-StaysApart (some m) id rt h =
    by_pool _ (ground (arith, h Pool.l1_pool)) (ground (arith, h Pool.l2_pool))

pub register_fresh_block-StaysApart :
    (id : ℤ) (rt : Runtime) → StaysApart rt (register_fresh_block id rt)
unfolding register_fresh_block
register_fresh_block-StaysApart id rt h =
    place_fresh-StaysApart (block_meta_for id fresh) id fresh (
      reset-StaysApart id opened
        (directory-StaysApart (λ d. BlockDirectory.initialize_fresh_block d id) rt h))
  where
    opened : Runtime
    opened = directory (λ d. BlockDirectory.initialize_fresh_block d id) rt

    fresh : Runtime
    fresh = reset_block_data id opened

pub clone-StaysApart :
    (src : ℤ) (t : Tier) (dst : ℤ) → Keeps StaysApart (clone_block_data_for_cow src t dst)
unfolding clone_block_data_for_cow
clone-StaysApart src t dst = search apart_rules depth 30
