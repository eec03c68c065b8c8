-- ===== src/Frame.antt =====
-- What paging, residency and copy on write leave alone: the block manager, the contexts, the
-- configuration and the host.
pub mod Pools
pub mod Residency
use mmu.Prelude.{
  ℕ, zero, suc, ℤ, pos, ◌≡◌, refl, arith, Bool, true, false, Option, none, some, List, [], ◌∷◌,
}
use mmu.Types.{PagePtr, OutPtr, ptr, Tier, Result, ok, err, stuck}
use mmu.Exec.{◌>>=◌}
use mmu.Exec.Keeps.{
  Keeps, Order, Keeps-bind, Keeps-gets, Keeps-pure, Keeps-fail_if, Keeps-if, Keeps-or_fail,
  Keeps-modify, keeps_rules,
}
use mmu.BlockManager.{BlockManager}
use mmu.Context.{Context}
use mmu.Config.{Config, Host}
use mmu.BlockDirectory.{BlockDirectory}
use mmu.Runtime.{Runtime, Pool, touch_block, directory}
use mmu.Paging.{
  allocate_chunk, refill, commit_page, pop_free, acquire_slot, copy_or_zero, acquire_page,
  sync_l1_to_l2, sync_l2_to_l1,
}

pub record Frames (rt rt' : Runtime) : Type 0 where
  pub same_allocator : rt'.l1_allocator ≡ rt.l1_allocator
  pub same_contexts : rt'.contexts ≡ rt.contexts
  pub same_config : rt'.config ≡ rt.config
  pub same_host : rt'.host ≡ rt.host
  pub same_limit : rt'.resident_limit ≡ rt.resident_limit

pub Frames-refl : (rt : Runtime) → Frames rt rt
Frames-refl rt = ground arith

pub Frames-trans : (a b c : Runtime) → Frames a b → Frames b c → Frames a c
Frames-trans a b c f g = ground arith

allocate_chunk-Frames : (p : Pool) (n : ℕ) (rt : Runtime) → Frames rt (allocate_chunk p n rt).1
unfolding allocate_chunk ◌>>=◌
allocate_chunk-Frames Pool.l1_pool n rt = ground arith
allocate_chunk-Frames Pool.l2_pool n rt = ground arith

allocate_chunk-Keeps : (p : Pool) (n : ℕ) → Keeps Frames (allocate_chunk p n)
allocate_chunk-Keeps p n = record { at = allocate_chunk-Frames p n }

pub Frames-order : Order Frames
Frames-order = record { rel_refl = Frames-refl; rel_trans = Frames-trans }

refill-Frames : (p : Pool) → Keeps Frames (refill p)
unfolding refill
refill-Frames p = search (keeps_rules, Frames-order, allocate_chunk-Keeps) depth 12

pop_free-Frames : (p : Pool) (i : ℕ) (free : List PagePtr) → Keeps Frames (pop_free p i free)
unfolding pop_free
pop_free-Frames p i [] = record { at = λ rt. ground arith }
pop_free-Frames Pool.l1_pool i (q ∷ rest) = record { at = λ rt. ground arith }
pop_free-Frames Pool.l2_pool i (q ∷ rest) = record { at = λ rt. ground arith }

commit_page-Frames : (p : Pool) (i : ℕ) → Keeps Frames (commit_page p i)
unfolding commit_page
commit_page-Frames p i = search (keeps_rules, Frames-order, refill-Frames, pop_free-Frames) depth 20

acquire_slot-Frames : (p : Pool) (i : ℕ) (s : Option PagePtr) → Keeps Frames (acquire_slot p i s)
acquire_slot-Frames p i none = commit_page-Frames p i
acquire_slot-Frames p i (some q) = Keeps-pure Frames-order q

pub acquire_page-Frames : (p : Pool) (id : ℤ) (o : OutPtr) → Keeps Frames (acquire_page p id o)
unfolding acquire_page
acquire_page-Frames p id o = search (keeps_rules, Frames-order, acquire_slot-Frames) depth 20

pub copy_or_zero-Frames :
    (src dst : Pool) (source : Option PagePtr) (target : PagePtr) (rt : Runtime)
    → Frames rt (copy_or_zero src dst source target rt)
copy_or_zero-Frames src Pool.l1_pool source target rt = ground arith
copy_or_zero-Frames src Pool.l2_pool source target rt = ground arith

pub directory-Frames :
    (f : BlockDirectory → Option BlockDirectory) (rt : Runtime) → Frames rt (directory f rt)
directory-Frames f rt = ground arith

pub touch_block-Frames : (id : ℤ) (rt : Runtime) → Frames rt (touch_block id rt)
unfolding touch_block
touch_block-Frames id rt = ground arith

pub sync_l1_to_l2-Frames : (id : ℤ) → Keeps Frames (sync_l1_to_l2 id)
unfolding sync_l1_to_l2
sync_l1_to_l2-Frames id =
    search (keeps_rules, Frames-order, acquire_page-Frames, copy_or_zero-Frames, directory-Frames)
      depth 20

pub sync_l2_to_l1-Frames : (id : ℤ) → Keeps Frames (sync_l2_to_l1 id)
unfolding sync_l2_to_l1
sync_l2_to_l1-Frames id =
    search (keeps_rules, Frames-order, acquire_page-Frames, copy_or_zero-Frames, directory-Frames)
      depth 20
