-- ===== src/Frame/Residency.antt =====
-- The frame of residency and of copy on write.
use mmu.Prelude.{ℕ, zero, suc, ℤ, pos, arith, Option, none, some}
use mmu.Types.{Tier}
use mmu.Exec.{Exec}
use mmu.Exec.Keeps.{Keeps, Keeps-bind, Keeps-if, keeps_rules}
use mmu.BlockDirectory
use mmu.BlockDirectory.{BlockDirectory, BlockMeta}
use mmu.ChunkPool.{ChunkPool}
use mmu.Runtime.{Runtime, touch_block, directory, block_meta_for}
use mmu.Residency.{
  reset_block_data, forget_block, reclaim_block, reclaim_from, move_block_to_l2,
  reclaim_unused_resident_blocks, evict_one, again, evict_while_full, promote, keep_resident,
  ensure_resident_in_l1, register_fresh_block, admit_fresh, park_fresh, place_fresh,
}
use mmu.Cow.{clone_block_data_for_cow}
use mmu.Frame.{
  Frames, Frames-refl, Frames-trans, Frames-order, acquire_page-Frames, copy_or_zero-Frames,
  directory-Frames, touch_block-Frames, sync_l1_to_l2-Frames, sync_l2_to_l1-Frames,
}

reset_block_data-Frames : (id : ℤ) (rt : Runtime) → Frames rt (reset_block_data id rt)
unfolding reset_block_data
reset_block_data-Frames id rt = ground arith

pub forget_block-Frames : (id : ℤ) (rt : Runtime) → Frames rt (forget_block id rt)
unfolding forget_block reset_block_data
forget_block-Frames id rt = ground arith

pub reclaim_block-Frames : (id : ℤ) (rt : Runtime) → Frames rt (reclaim_block id rt)
unfolding reclaim_block
reclaim_block-Frames id rt = ground (arith, forget_block-Frames id rt)

reclaim_from-Frames : (n i : ℕ) (rt : Runtime) → Frames rt (reclaim_from i n rt)
unfolding reclaim_from
reclaim_from-Frames zero i rt = Frames-refl rt
reclaim_from-Frames (suc n) i rt =
    Frames-trans rt (reclaim_block (pos i) rt) _ (reclaim_block-Frames (pos i) rt)
      (reclaim_from-Frames n (suc i) _)

pub reclaim-Frames : (rt : Runtime) → Frames rt (reclaim_unused_resident_blocks rt)
unfolding reclaim_unused_resident_blocks
reclaim-Frames rt = reclaim_from-Frames rt.config.l1_block_count 0 rt

pub ruleset frame_rules = (
  keeps_rules, Frames-order, acquire_page-Frames, copy_or_zero-Frames, directory-Frames,
  touch_block-Frames, sync_l1_to_l2-Frames, sync_l2_to_l1-Frames,
)

-- A change of the other fields.
fields-Frames :
    (rt : Runtime) (d : BlockDirectory) (p q : ChunkPool) (n e r : ℕ)
    → Frames rt (record rt {
      block_directory = d;
      l1_pool = p;
      l2_pool = q;
      resident_count = n;
      epoch = e;
      requests = r;
    })
fields-Frames rt d p q n e r = ground arith

pub move_block_to_l2-Frames : (id : ℤ) → Keeps Frames (move_block_to_l2 id)
unfolding move_block_to_l2
move_block_to_l2-Frames id = search (frame_rules, fields-Frames) depth 25

evict_one-Frames : (id : ℤ) → Keeps Frames (evict_one id)
unfolding evict_one
evict_one-Frames id = search (frame_rules, move_block_to_l2-Frames) depth 20

again-Frames :
    (rest : Exec Runtime (Unit {0})) (id : ℤ) → Keeps Frames rest → Keeps Frames (again rest id)
unfolding again
again-Frames rest id k = search (frame_rules, evict_one-Frames) depth 20

evict_while_full-Frames : (n : ℕ) (id : ℤ) → Keeps Frames (evict_while_full n id)
unfolding evict_while_full
evict_while_full-Frames zero id = record { at = λ rt. Frames-refl rt }
evict_while_full-Frames (suc n) id = record {
  at = (again-Frames _ id (evict_while_full-Frames n id)).at;
}

promote-Frames : (id : ℤ) → Keeps Frames (promote id)
unfolding promote
promote-Frames id = search (frame_rules, evict_while_full-Frames, fields-Frames) depth 25

keep_resident-Frames : (id : ℤ) → Keeps Frames (keep_resident id)
unfolding keep_resident
keep_resident-Frames id = search frame_rules depth 20

-- Bringing a block to L1 leaves the manager, the contexts and the configuration alone.
pub ensure_resident_in_l1-Frames : (id : ℤ) → Keeps Frames (ensure_resident_in_l1 id)
unfolding ensure_resident_in_l1
ensure_resident_in_l1-Frames id =
    search (frame_rules, reclaim-Frames, keep_resident-Frames, promote-Frames) depth 25

admit_fresh-Frames : (id : ℤ) (rt : Runtime) → Frames rt (admit_fresh id rt)
unfolding admit_fresh touch_block
admit_fresh-Frames id rt = ground arith

place_fresh-Frames :
    (m : Option BlockMeta) (id : ℤ) (rt : Runtime) → Frames rt (place_fresh m id rt)
unfolding park_fresh
place_fresh-Frames none id rt = Frames-refl rt
place_fresh-Frames (some m) id rt = ground (arith, admit_fresh-Frames id rt)

pub register_fresh_block-Frames : (id : ℤ) (rt : Runtime) → Frames rt (register_fresh_block id rt)
unfolding register_fresh_block
register_fresh_block-Frames id rt =
    Frames-trans rt fresh _ before (place_fresh-Frames (block_meta_for id fresh) id fresh)
  where
    fresh : Runtime
    fresh = reset_block_data id (directory (λ d. BlockDirectory.initialize_fresh_block d id) rt)

    opened : Runtime
    opened = directory (λ d. BlockDirectory.initialize_fresh_block d id) rt

    before : Frames rt fresh
    before =
        Frames-trans rt opened fresh
          (directory-Frames (λ d. BlockDirectory.initialize_fresh_block d id) rt)
          (reset_block_data-Frames id opened)

pub clone_block_data_for_cow-Frames :
    (src : ℤ) (tier : Tier) (dst : ℤ) → Keeps Frames (clone_block_data_for_cow src tier dst)
unfolding clone_block_data_for_cow
clone_block_data_for_cow-Frames src tier dst = search (frame_rules, fields-Frames) depth 40
