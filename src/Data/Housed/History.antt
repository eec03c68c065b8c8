-- ===== src/Data/Housed/History.antt =====
-- After any history of calls on a new runtime every block is housed.
use mmu.Prelude.{
  ℕ, zero, suc, ◌<◌, ◌≡◌, arith, negsuc, refl, subst, true, false, ◌⊎◌, inl, inr, Bool-cases,
  Option-cases, Option, none, some, List, [], ◌∷◌, get_elem?, replicate, u32_mod,
}
use mmu.Types.{OutPtr, PagePtr, l1, ok}
use mmu.BlockDirectory
use mmu.BlockDirectory.{BlockMeta, default_meta}
use mmu.ChunkPool
use mmu.ChunkPool.{owner, slot_of, zero_page, Page}
use mmu.Config.{Config, Host, resolve}
use mmu.Config.Bounds.{mmu_init-eq, mmu_init-null}
use mmu.Paging.Apart.{same_uses-IsApart}
use mmu.Data.{by_pool}
use mmu.Runtime.{Pool, Runtime, new_runtime}
use mmu.Paging.Pages.{content, Same}
use mmu.Residency.{is_resident}
use mmu.Api.{Handle, mmu_init}
use mmu.History.{Action, perform, performs, At, Handlers, Allocates, perform-At, client_write}
use mmu.Settled.{Calm-SettledBut}
use mmu.Settled.Blocks.{release_logical_block-Settles}
use mmu.Settled.Remap.{update_mapping-Settles}
use mmu.Settled.Allocate.{allocate_blocks-Settles}
use mmu.Settled.Calls.{
  create_context-Settles, fork_context-Settles, destroy_context-Settled,
  unmap_logical_block-Settles,
}
use mmu.Settled.Guarantees.{mmu_init-Settled}
use mmu.Data.Guarantees.{new_runtime-Apart}
use mmu.Data.Housed.{IsHoused, entry, tier_of, out-House}
use mmu.Data.Housed.Calls.{
  create_context-StaysHoused, fork_context-StaysHoused, destroy_context-StaysHoused,
  release_logical_block-StaysHoused, unmap_logical_block-StaysHoused, allocate_blocks-StaysHoused,
}
use mmu.Data.Housed.Replacing.{
  Orderly, prepare_block_for_write-StaysOrderly, map_logical_block-StaysOrderly,
  update_mapping-IsHoused,
}

-- What the client writes goes to L1.
write-IsHoused :
    (q : PagePtr) (size : ℕ) (bytes : Page) (rt : Runtime)
    → IsHoused rt
    → IsHoused (client_write q size bytes rt)
unfolding owner
write-IsHoused q size bytes rt g = record {
  apart =
      by_pool _ (same_uses-IsApart rt.l1_pool _ (g.apart Pool.l1_pool) refl λ r. refl)
        (g.apart Pool.l2_pool);
  houses = λ j. record {
    at_l1 = (g.houses j).at_l1;
    blank = (g.houses j).blank;
    no_page = (g.houses j).no_page;
  };
}

handlers : Handlers Orderly
handlers = record {
  create_context = record {
    at = λ rt h. ((create_context-Settles.settles rt h.0).0, create_context-StaysHoused.at rt h.1);
  };
  destroy_context =
      λ ctx rt h. (destroy_context-Settled ctx rt h.0, destroy_context-StaysHoused ctx rt h.1);
  fork_context = λ ctx. record {
    at = λ rt h.
        (((fork_context-Settles ctx).settles rt h.0).0, (fork_context-StaysHoused ctx).at rt h.1);
  };
  release_block = λ ctx lb. record {
    at = λ rt h. (
      ((release_logical_block-Settles ctx lb).settles rt h.0).0,
      (release_logical_block-StaysHoused ctx lb).at rt h.1,
    );
  };
  prepare_block = prepare_block_for_write-StaysOrderly;
  map_block = map_logical_block-StaysOrderly;
  unmap_block = λ ctx b. record {
    at = λ rt h. (
      ((unmap_logical_block-Settles ctx b).settles rt h.0).0,
      (unmap_logical_block-StaysHoused ctx b).at rt h.1,
    );
  };
  update_mapping = λ ctx lb id t. record {
    at = λ rt h. (
      ((update_mapping-Settles ctx lb id t).settles rt h.0).0,
      update_mapping-IsHoused ctx lb id t rt h,
    );
  };
  client_write = λ q size bytes rt h. (
    Calm-SettledBut (negsuc 0) rt (client_write q size bytes rt) h.0 (ground arith) (ground arith),
    write-IsHoused q size bytes rt h.1,
  );
}

allocates : (c : Action) (mmu : Handle) → Allocates Orderly c mmu
allocates (Action.allocate ctx n) none = tt
allocates (Action.allocate ctx n) (some rt) = λ h. (
  ((allocate_blocks-Settles ctx n).settles rt h.0).0,
  (allocate_blocks-StaysHoused ctx n).at rt h.1,
)
allocates Action.create mmu = tt
allocates (Action.destroy ctx) mmu = tt
allocates (Action.fork ctx) mmu = tt
allocates (Action.release ctx lb) mmu = tt
allocates (Action.prepare ctx lb) mmu = tt
allocates (Action.map_block ctx lb flags) mmu = tt
allocates (Action.map_blocks ctx lbs flags) mmu = tt
allocates (Action.unmap_block ctx b) mmu = tt
allocates (Action.unmap_blocks ctx bs) mmu = tt
allocates (Action.remap ctx lb id tier) mmu = tt
allocates (Action.write q size bytes) mmu = tt

performs-Orderly : (cs : List Action) (mmu : Handle) → At Orderly mmu → At Orderly (performs cs mmu)
performs-Orderly [] mmu h = h
performs-Orderly (c ∷ cs) mmu h =
    performs-Orderly cs (perform c mmu) (perform-At handlers c mmu (allocates c mmu) h)

-- A new runtime has no resident block and no page.
default-out : (n j : ℕ) → is_resident (get_elem? (replicate n default_meta) j) ≡ false
default-out zero j = refl
default-out (suc n) zero = refl
default-out (suc n) (suc j) = default-out n j

slot_of-replicate : (n j : ℕ) → slot_of (get_elem? (replicate {A = Option PagePtr} n none) j) ≡ none
slot_of-replicate zero j = refl
slot_of-replicate (suc n) zero = refl
slot_of-replicate (suc n) (suc j) = slot_of-replicate n j

new_runtime-IsHoused : (h : Host) (c : Config) → IsHoused (new_runtime h c)
unfolding new_runtime BlockDirectory.init ChunkPool.init owner
new_runtime-IsHoused h c = record {
  apart = new_runtime-Apart h c;
  houses = λ j.
      out-House _ _ _ _ (default-out c.l1_block_count j) (slot_of-replicate c.l1_block_count j);
}

mmu_init-IsHoused :
    (h : Host) (c : Option Config) (o : OutPtr) (rt : Runtime)
    → mmu_init h c o ≡ ok rt
    → IsHoused rt
mmu_init-IsHoused h none o rt e = absurd (mmu_init-null h o rt e)
mmu_init-IsHoused h (some c) o rt e =
    rw (mmu_init-eq h c o rt e).0 (new_runtime-IsHoused h (resolve h c))

module _ (h : Host) (c : Option Config) (o : OutPtr) (rt : Runtime)
    (started : mmu_init h c o ≡ ok rt) (narrow : rt.config.l1_block_count < u32_mod)
    (calls : List Action) (rt' : Runtime) (made : performs calls (some rt) ≡ some rt') where
  pub history-Orderly : Orderly rt'
  history-Orderly =
      let at : At Orderly (performs calls (some rt)) =
        performs-Orderly calls (some rt)
          (mmu_init-Settled h c o rt started narrow, mmu_init-IsHoused h c o rt started) in
      subst (At Orderly) made at

  -- After any history of calls on a new runtime, whose number of blocks is a uint32_t, each block
  -- either is resident, with tier L1, and has an L1 page or only zeros in L2, or it is not resident
  -- and has no L1 page.
  pub performs-houses :
      (j : ℕ)
      → ((is_resident (entry rt' j) ≡ true)
          × (tier_of (entry rt' j) ≡ l1)
          × (((q : PagePtr) × (owner rt'.l1_pool j ≡ some q))
              ⊎ Same rt'.config.block_size_bytes (content rt'.l2_pool j) zero_page))
        ⊎ ((is_resident (entry rt' j) ≡ false) × (owner rt'.l1_pool j ≡ none))
  performs-houses j =
      let house = history-Orderly.1.houses j in
      elim (Bool-cases (is_resident (entry rt' j))) [
        | inr out ↦ inr (out, house.no_page out)
        | inl in_l1 ↦ inl (
          in_l1,
          house.at_l1 in_l1,
          elim (Option-cases (owner rt'.l1_pool j)) [
            | inl empty ↦ inr (house.blank in_l1 empty)
            | inr (q, own) ↦ inl (q, own)
          ],
        )
      ]
