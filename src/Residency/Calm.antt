-- ===== src/Residency/Calm.antt =====
-- The copies between the pools, and the writes that leave the residency of every block alone.
use mmu.Prelude.{ℤ, ◌≡◌, refl, arith, Bool, Option, List}
use mmu.Types.{PagePtr, ptr}
use mmu.Exec.Keeps.{Keeps, Order, keeps_rules}
use mmu.Exec.Returns.{Returns, returns_rules}
use mmu.BlockDirectory
use mmu.BlockDirectory.{BlockDirectory, BlockMeta}
use mmu.Runtime.{Runtime, Pool, directory, write_meta, touch_block}
use mmu.Paging.{acquire_page, copy_or_zero, sync_l1_to_l2, sync_l2_to_l1}
use mmu.Frame.Pools.{Still, acquire_page-Still, acquire_page-Returns}
use mmu.Residency.Flags.{flags_of, mutable_get-flags_same}

abbrev pub flags : Runtime → List Bool
flags rt = flags_of rt.block_directory.metas

pub record Calm (rt rt' : Runtime) : Type 0 where
  pub same_flags : flags rt' ≡ flags rt
  pub calm_count : rt'.resident_count ≡ rt.resident_count
  pub calm_limit : rt'.resident_limit ≡ rt.resident_limit

pub Calm-refl : (rt : Runtime) → Calm rt rt
Calm-refl rt = ground arith

pub Calm-trans : (a b c : Runtime) → Calm a b → Calm b c → Calm a c
Calm-trans a b c f g = ground arith

pub Calm-order : Order Calm
Calm-order = record { rel_refl = Calm-refl; rel_trans = Calm-trans }

Still-Calm : (a b : Runtime) → Still a b → Calm a b
Still-Calm a b s = ground arith

pub acquire_page-Calm : (p : Pool) (id : ℤ) → Keeps Calm (acquire_page p id ptr)
acquire_page-Calm p id = record { at = λ rt. Still-Calm rt _ ((acquire_page-Still p id ptr).at rt) }

pub copy_or_zero-Calm :
    (src dst : Pool) (source : Option PagePtr) (target : PagePtr) (rt : Runtime)
    → Calm rt (copy_or_zero src dst source target rt)
copy_or_zero-Calm src Pool.l1_pool source target rt = ground arith
copy_or_zero-Calm src Pool.l2_pool source target rt = ground arith

pub write_meta-Calm :
    (id : ℤ) (f : BlockMeta → BlockMeta) (rt : Runtime)
    → ((m : BlockMeta) → (f m).resident_in_l1 ≡ m.resident_in_l1)
    → Calm rt (write_meta id f rt)
write_meta-Calm id f rt h = record {
  same_flags = mutable_get-flags_same rt.block_directory id f h;
  calm_count = refl;
  calm_limit = refl;
}

pub backing-Calm :
    (id : ℤ) (b : Bool) (rt : Runtime)
    → Calm rt (directory (λ d. BlockDirectory.set_has_l2_backing d id b) rt)
unfolding BlockDirectory.set_has_l2_backing
backing-Calm id b rt = write_meta-Calm id _ rt (λ m. refl)

pub slot-Calm :
    (id slot : ℤ) (rt : Runtime)
    → Calm rt (directory (λ d. BlockDirectory.set_l2_slot_id d id slot) rt)
unfolding BlockDirectory.set_l2_slot_id
slot-Calm id slot rt = write_meta-Calm id _ rt (λ m. refl)

frame-Calm :
    (id frame : ℤ) (rt : Runtime)
    → Calm rt (directory (λ d. BlockDirectory.set_l1_frame_id d id frame) rt)
unfolding BlockDirectory.set_l1_frame_id
frame-Calm id frame rt = write_meta-Calm id _ rt (λ m. refl)

pub touch_block-Calm : (id : ℤ) (rt : Runtime) → Calm rt (touch_block id rt)
unfolding touch_block BlockDirectory.set_last_access_epoch
touch_block-Calm id rt = record {
  same_flags = mutable_get-flags_same rt.block_directory id _ (λ m. refl);
  calm_count = refl;
  calm_limit = refl;
}

pub sync_l1_to_l2-Calm : (id : ℤ) → Keeps Calm (sync_l1_to_l2 id)
unfolding sync_l1_to_l2
sync_l1_to_l2-Calm id =
    search (keeps_rules, Calm-order, acquire_page-Calm, copy_or_zero-Calm, backing-Calm, slot-Calm)
      depth 20

pub sync_l2_to_l1-Calm : (id : ℤ) → Keeps Calm (sync_l2_to_l1 id)
unfolding sync_l2_to_l1
sync_l2_to_l1-Calm id =
    search (keeps_rules, Calm-order, acquire_page-Calm, copy_or_zero-Calm, frame-Calm) depth 20

pub sync_l1_to_l2-Returns : (id : ℤ) → Returns (sync_l1_to_l2 id)
unfolding sync_l1_to_l2
sync_l1_to_l2-Returns id = search (returns_rules, acquire_page-Returns) depth 20

pub sync_l2_to_l1-Returns : (id : ℤ) → Returns (sync_l2_to_l1 id)
unfolding sync_l2_to_l1
sync_l2_to_l1-Returns id = search (returns_rules, acquire_page-Returns) depth 20
