-- ===== src/Data/Sharing/Calls.antt =====
-- The handlers leave each page to at most one block.
use mmu.Prelude.{
  ℕ, ℤ, pos, ◌==ℤ◌, Option, none, some, List, [], ◌∷◌, Bool-cases, Option-cases, inl, inr,
}
use mmu.Types.{OutPtr, Tier, l0, l1, l2, Result, PhysicalRoute, MappedBlock, Error}
use mmu.Exec.{Exec, fail}
use mmu.Exec.Keeps.{Keeps}
use mmu.BlockManager
use mmu.BlockDirectory.{BlockDirectory}
use mmu.Context.{Context, Session}
use mmu.Runtime.{Runtime, Pool, find_context, in_context, run_session}
use mmu.Residency.{register_fresh_block}
use mmu.Api.{
  create_context, destroy_context, fork_context, fork_found, emplace, register_all, allocate_blocks,
  lift, resolve_routing, forget_if_unused, release_logical_block, clone_if_moved,
  prepare_block_for_write,
}
use mmu.Api.Mapping.{direct, map_routed, map_logical_block, unmap_routed, unmap_logical_block}
use mmu.Api.TestApi.{replace_blocks, move_to_tier, update_mapping}
use mmu.Data.{by_pool}
use mmu.Data.Sharing.{
  StaysApart, apart_rules, sync_l1_to_l2-StaysApart, move_block_to_l2-StaysApart,
  forget_block-StaysApart, reclaim-StaysApart, ensure_resident_in_l1-StaysApart,
  register_fresh_block-StaysApart, clone-StaysApart,
}

emplace-StaysApart : (c : Context) → Keeps StaysApart (emplace c)
emplace-StaysApart c = record { at = λ rt h. by_pool _ (h Pool.l1_pool) (h Pool.l2_pool) }

pub create_context-StaysApart : Keeps StaysApart create_context
unfolding create_context
create_context-StaysApart = record { at = λ rt h. by_pool _ (h Pool.l1_pool) (h Pool.l2_pool) }

fork_found-StaysApart : (c : Context) → Keeps StaysApart (fork_found c)
fork_found-StaysApart c = record { at = λ rt h. by_pool _ (h Pool.l1_pool) (h Pool.l2_pool) }

pub fork_context-StaysApart : (ctx : ℕ) → Keeps StaysApart (fork_context ctx)
unfolding fork_context
fork_context-StaysApart ctx = search (apart_rules, fork_found-StaysApart) depth 20

pub destroy_context-StaysApart : (ctx : ℕ) (rt : Runtime) → StaysApart rt (destroy_context ctx rt)
unfolding destroy_context
destroy_context-StaysApart ctx rt h = elim (Option-cases (find_context ctx rt)) [
  | inl e ↦ rw e h
  | inr (c, e) ↦ rw e (reclaim-StaysApart _ (by_pool _ (h Pool.l1_pool) (h Pool.l2_pool)))
]

run_session-StaysApart :
    {A : Type 0} (ctx : ℕ) (m : Exec Session A) (c : Option Context) (rt : Runtime)
    → StaysApart rt (run_session ctx m rt c).1
run_session-StaysApart ctx m none rt h = h
run_session-StaysApart ctx m (some c) rt h = by_pool _ (h Pool.l1_pool) (h Pool.l2_pool)

in_context-StaysApart :
    {A : Type 0} (ctx : ℕ) (m : Exec Session A) → Keeps StaysApart (in_context ctx m)
unfolding in_context
in_context-StaysApart ctx m = record {
  at = λ rt. run_session-StaysApart ctx m (find_context ctx rt) rt;
}

register_all-StaysApart : (ids : List ℤ) (rt : Runtime) → StaysApart rt (register_all ids rt)
unfolding register_all
register_all-StaysApart [] rt h = h
register_all-StaysApart (id ∷ ids) rt h =
    register_all-StaysApart ids (register_fresh_block id rt)
      (register_fresh_block-StaysApart id rt h)

pub allocate_blocks-StaysApart : (ctx n : ℕ) → Keeps StaysApart (allocate_blocks ctx n)
unfolding allocate_blocks
allocate_blocks-StaysApart ctx n =
    search (apart_rules, reclaim-StaysApart, in_context-StaysApart, register_all-StaysApart) depth
      30

lift-StaysApart : {A : Type 0} (r : Result A) → Keeps StaysApart (lift r)
lift-StaysApart r = record { at = λ rt h. h }

resolve_routing-StaysApart : (ctx lb : ℕ) (o : OutPtr) → Keeps StaysApart (resolve_routing ctx lb o)
unfolding resolve_routing
resolve_routing-StaysApart ctx lb o = search (apart_rules, lift-StaysApart) depth 30

forget_if_unused-StaysApart : (id : ℤ) (rt : Runtime) → StaysApart rt (forget_if_unused id rt)
forget_if_unused-StaysApart id rt h =
    elim (Bool-cases (BlockManager.ref_count rt.l1_allocator id ==ℤ pos 0)) [
      | inl t ↦ rw t (forget_block-StaysApart id rt h)
      | inr f ↦ rw f h
    ]

pub release_logical_block-StaysApart :
    (ctx lb : ℕ) → Keeps StaysApart (release_logical_block ctx lb)
unfolding release_logical_block
release_logical_block-StaysApart ctx lb =
    search
      (apart_rules, resolve_routing-StaysApart, in_context-StaysApart, forget_if_unused-StaysApart)
      depth 30

clone_if_moved-StaysApart : (r : PhysicalRoute) (id : ℤ) → Keeps StaysApart (clone_if_moved r id)
clone_if_moved-StaysApart r id = search (apart_rules, clone-StaysApart) depth 30

pub prepare_block_for_write-StaysApart :
    (ctx lb : ℕ) → Keeps StaysApart (prepare_block_for_write ctx lb)
unfolding prepare_block_for_write
prepare_block_for_write-StaysApart ctx lb =
    search
      (apart_rules, resolve_routing-StaysApart, in_context-StaysApart, clone_if_moved-StaysApart)
      depth 30

direct-StaysApart :
    (f : BlockDirectory → Option BlockDirectory) (e : Error) → Keeps StaysApart (direct f e)
direct-StaysApart f e = record {
  at = λ rt h. elim (Option-cases (f rt.block_directory)) [
    | inl n ↦ rw (n, direct) h
    | inr (d, s) ↦ rw (s, direct) (by_pool _ (h Pool.l1_pool) (h Pool.l2_pool))
  ];
}

map_routed-StaysApart :
    (lb flags : ℕ) (r : PhysicalRoute) → Keeps StaysApart (map_routed lb flags r)
unfolding map_routed
map_routed-StaysApart lb flags r =
    search (apart_rules, ensure_resident_in_l1-StaysApart, direct-StaysApart) depth 30

pub map_logical_block-StaysApart :
    (ctx lb flags : ℕ) → Keeps StaysApart (map_logical_block ctx lb flags)
unfolding map_logical_block
map_logical_block-StaysApart ctx lb flags =
    search
      (
        apart_rules, prepare_block_for_write-StaysApart, resolve_routing-StaysApart,
        map_routed-StaysApart,
      )
      depth 30

unmap_routed-StaysApart : (id : ℤ) (flags : ℕ) → Keeps StaysApart (unmap_routed id flags)
unfolding unmap_routed
unmap_routed-StaysApart id flags =
    search (apart_rules, sync_l1_to_l2-StaysApart, direct-StaysApart) depth 40

pub unmap_logical_block-StaysApart :
    (ctx : ℕ) (b : MappedBlock) → Keeps StaysApart (unmap_logical_block ctx b)
unfolding unmap_logical_block
unmap_logical_block-StaysApart ctx b =
    search (apart_rules, resolve_routing-StaysApart, unmap_routed-StaysApart) depth 30

replace_blocks-StaysApart : (a b : ℤ) → Keeps StaysApart (replace_blocks a b)
replace_blocks-StaysApart a b = search (apart_rules, forget_if_unused-StaysApart) depth 20

move_to_tier-StaysApart : (t : Tier) (id : ℤ) → Keeps StaysApart (move_to_tier t id)
unfolding fail
move_to_tier-StaysApart l0 id = record { at = λ rt h. h }
move_to_tier-StaysApart l1 id = ensure_resident_in_l1-StaysApart id
move_to_tier-StaysApart l2 id = move_block_to_l2-StaysApart id

pub update_mapping-StaysApart :
    (ctx lb : ℕ) (id : ℤ) (t : Tier) → Keeps StaysApart (update_mapping ctx lb id t)
unfolding update_mapping
update_mapping-StaysApart ctx lb id t =
    search
      (
        apart_rules, resolve_routing-StaysApart, in_context-StaysApart, replace_blocks-StaysApart,
        move_to_tier-StaysApart,
      )
      depth 40
