-- ===== src/Data/Guarantees.antt =====
-- What a client can rely on about the pages and the bytes after any history of calls on a new
-- runtime.
use mmu.Prelude.{ℕ, ◌==◌, ◌≡◌, refl, subst, false, Option, none, some, List, [], ◌∷◌}
use mmu.Types.{OutPtr, PagePtr, ok}
use mmu.ChunkPool.{owner, same_ptr}
use mmu.Config.{Config, Host, resolve}
use mmu.Config.Bounds.{mmu_init-eq, mmu_init-null}
use mmu.Runtime.{Runtime, Pool, pool_of, new_runtime}
use mmu.Paging.Apart.{init-IsApart, owners_differ, same_uses-IsApart}
use mmu.Api.{Handle, mmu_init}
use mmu.History.{Action, perform, performs, At, Handlers, Allocates, perform-At}
use mmu.Data.{Apart, by_pool}
use mmu.Data.Sharing.Calls.{
  create_context-StaysApart, fork_context-StaysApart, destroy_context-StaysApart,
  allocate_blocks-StaysApart, release_logical_block-StaysApart, prepare_block_for_write-StaysApart,
  map_logical_block-StaysApart, unmap_logical_block-StaysApart, update_mapping-StaysApart,
}

handlers : Handlers Apart
handlers = record {
  create_context = create_context-StaysApart;
  destroy_context = destroy_context-StaysApart;
  fork_context = fork_context-StaysApart;
  release_block = release_logical_block-StaysApart;
  prepare_block = prepare_block_for_write-StaysApart;
  map_block = map_logical_block-StaysApart;
  unmap_block = unmap_logical_block-StaysApart;
  update_mapping = update_mapping-StaysApart;
  client_write = λ q size bytes rt h.
      by_pool _ (same_uses-IsApart rt.l1_pool _ (h Pool.l1_pool) refl λ r. refl) (h Pool.l2_pool);
}

allocates : (c : Action) (mmu : Handle) → Allocates Apart c mmu
allocates (Action.allocate ctx n) none = tt
allocates (Action.allocate ctx n) (some rt) = (allocate_blocks-StaysApart ctx n).at rt
allocates Action.create mmu = tt
allocates (Action.destroy ctx) mmu = tt
allocates (Action.fork ctx) mmu = tt
allocates (Action.release ctx lb) mmu = tt
allocates (Action.prepare ctx lb) mmu = tt
allocates (Action.map_block ctx lb flags) mmu = tt
allocates (Action.map_blocks ctx lbs flags) mmu = tt
allocates (Action.unmap_block ctx b) mmu = tt
allocates (Action.unmap_blocks ctx bs) mmu = tt
allocates (Action.remap ctx lb id tier) mmu = tt
allocates (Action.write q size bytes) mmu = tt

performs-Apart : (cs : List Action) (mmu : Handle) → At Apart mmu → At Apart (performs cs mmu)
performs-Apart [] mmu h = h
performs-Apart (c ∷ cs) mmu h =
    performs-Apart cs (perform c mmu) (perform-At handlers c mmu (allocates c mmu) h)

pub new_runtime-Apart : (h : Host) (c : Config) → Apart (new_runtime h c)
unfolding new_runtime
new_runtime-Apart h c = by_pool _ (init-IsApart c.l1_block_count) (init-IsApart c.l1_block_count)

mmu_init-Apart :
    (h : Host) (c : Option Config) (o : OutPtr) (rt : Runtime) → mmu_init h c o ≡ ok rt → Apart rt
mmu_init-Apart h none o rt e = absurd (mmu_init-null h o rt e)
mmu_init-Apart h (some c) o rt e = rw (mmu_init-eq h c o rt e).0 (new_runtime-Apart h (resolve h c))

module _ (h : Host) (c : Option Config) (o : OutPtr) (rt : Runtime)
    (started : mmu_init h c o ≡ ok rt) (calls : List Action) where
  pub history-Apart : (rt' : Runtime) → performs calls (some rt) ≡ some rt' → Apart rt'
  history-Apart rt' e =
      let at : At Apart (performs calls (some rt)) =
        performs-Apart calls (some rt) (mmu_init-Apart h c o rt started) in
      subst (At Apart) e at

  -- After any history of calls on a new runtime, successful or not, two different blocks never have
  -- the same page of a pool.
  pub performs-own_pages :
      (rt' : Runtime) (p : Pool) (i j : ℕ) (q r : PagePtr)
      → performs calls (some rt) ≡ some rt'
      → (i == j) ≡ false
      → owner (pool_of rt' p) i ≡ some q
      → owner (pool_of rt' p) j ≡ some r
      → same_ptr q r ≡ false
  performs-own_pages rt' p i j q r e ne at_i at_j =
      owners_differ (pool_of rt' p) i j q r (history-Apart rt' e p) ne at_i at_j
