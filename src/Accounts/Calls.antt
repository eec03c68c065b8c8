-- ===== src/Accounts/Calls.antt =====
-- Every handler of the API keeps the accounts, but for a request of more blocks than are free.
use mmu.Prelude.{
  ℕ, ◌≤◌, ℤ, pos, List, [], ◌∷◌, Option, arith, length, ltb, inl, inr, Option-cases, Bool-cases,
  int_max,
}
use mmu.Types.{OutPtr, Tier, l0, l1, l2, Result, ok, err, stuck, Error, PhysicalRoute, MappedBlock}
use mmu.Exec.{Exec, continue, ◌>>=◌, modify, fail}
use mmu.Exec.Keeps.{Keeps, keeps_rules}
use mmu.BlockDirectory.{BlockDirectory}
use mmu.Context
use mmu.Context.{Context, Session}
use mmu.Context.Balance.{
  release_logical_block-Moves, prepare_block_for_write-Moves, update_mapping-Moves,
}
use mmu.Residency.{register_fresh_block, reclaim_unused_resident_blocks}
use mmu.Context.Allocation.{allocate_blocks-Moves}
use mmu.Runtime.{Runtime, find_context, in_context, session}
use mmu.Frame.{Frames, Frames-refl, directory-Frames}
use mmu.Frame.Residency.{
  reclaim-Frames, forget_block-Frames, clone_block_data_for_cow-Frames, frame_rules,
  ensure_resident_in_l1-Frames, register_fresh_block-Frames, move_block_to_l2-Frames,
}
use mmu.Api.{
  allocate_blocks, register_all, create_context, destroy_context, fork_context,
  release_logical_block, resolve_routing, prepare_block_for_write, forget_if_unused, lift,
  clone_if_moved,
}
use mmu.Api.Mapping.{map_routed, map_logical_block, unmap_routed, unmap_logical_block, direct}
use mmu.Api.TestApi.{update_mapping, move_to_tier}
use mmu.Accounts.{
  in_context-Accounts, Accounts, Keeping, Keeping-order, Frames-Accounts, in_context-Keeping,
  fork-Accounts, destroy-Accounts,
}

-- What frames the manager and the contexts keeps the accounts.
frame : {A : Type 0} (m : Exec Runtime A) → Keeps Frames m → Keeps Keeping m
frame m k = record { at = λ rt. Frames-Accounts rt (m rt).1 (k.at rt) }

frame_step :
    (f : Runtime → Runtime)
    → ((rt : Runtime) → Frames rt (f rt))
    → (rt : Runtime) → Keeping rt (f rt)
frame_step f k rt = Frames-Accounts rt (f rt) (k rt)

lift-Keeping : {A : Type 0} (r : Result A) → Keeps Keeping (lift r)
lift-Keeping r = record { at = λ rt a. a }

resolve_routing-Keeping : (ctx lb : ℕ) (o : OutPtr) → Keeps Keeping (resolve_routing ctx lb o)
unfolding resolve_routing
resolve_routing-Keeping ctx lb o = search (keeps_rules, Keeping-order, lift-Keeping) depth 20

forget_if_unused-Frames : (id : ℤ) (rt : Runtime) → Frames rt (forget_if_unused id rt)
forget_if_unused-Frames id rt = ground (arith, forget_block-Frames id rt)

pub release_logical_block-Keeping : (ctx lb : ℕ) → Keeps Keeping (release_logical_block ctx lb)
unfolding release_logical_block
release_logical_block-Keeping ctx lb =
    search
      (
        keeps_rules, Keeping-order, resolve_routing-Keeping, frame_step, forget_if_unused-Frames,
        in_context-Keeping, release_logical_block-Moves,
      )
      depth 20

clone_if_moved-Keeping : (r : PhysicalRoute) (id : ℤ) → Keeps Keeping (clone_if_moved r id)
clone_if_moved-Keeping r id =
    search
      (
        keeps_rules, Keeping-order, frame, frame_step, directory-Frames,
        clone_block_data_for_cow-Frames,
      )
      depth 20

pub prepare_block_for_write-Keeping : (ctx lb : ℕ) → Keeps Keeping (prepare_block_for_write ctx lb)
unfolding prepare_block_for_write
prepare_block_for_write-Keeping ctx lb =
    search
      (
        keeps_rules, Keeping-order, resolve_routing-Keeping, clone_if_moved-Keeping,
        in_context-Keeping, prepare_block_for_write-Moves,
      )
      depth 20

pub create_context-Keeping : Keeps Keeping create_context
unfolding create_context
create_context-Keeping = record {
  at = λ rt a. record { backed = λ j. omega (arith, a.backed j); valid = a.valid };
}

pub fork_context-Keeping : (ctx : ℕ) → Keeps Keeping (fork_context ctx)
unfolding fork_context ◌>>=◌
fork_context-Keeping ctx = record {
  at = λ rt a. elim (Option-cases (find_context ctx rt)) [
    | inl e ↦ rw (e) a
    | inr (c, e) ↦ rw e (fork-Accounts rt ctx _ c a e)
  ];
}

pub destroy_context-Keeping : (ctx : ℕ) (rt : Runtime) → Keeping rt (destroy_context ctx rt)
unfolding destroy_context
destroy_context-Keeping ctx rt a = elim (Option-cases (find_context ctx rt)) [
  | inl e ↦ rw e a
  | inr (c, e) ↦ rw e (Frames-Accounts _ _ (reclaim-Frames _) (destroy-Accounts rt ctx c a e))
]

register_all-Keeping : (ids : List ℤ) (rt : Runtime) → Keeping rt (register_all ids rt)
unfolding register_all
register_all-Keeping [] rt a = a
register_all-Keeping (id ∷ ids) rt a =
    register_all-Keeping ids (register_fresh_block id rt)
      (Frames-Accounts rt _ (register_fresh_block-Frames id rt) a)

registered-Accounts :
    (r : Result (List ℤ)) (rt : Runtime)
    → Accounts rt
    → Accounts (continue r (λ ids. modify (register_all ids)) rt).1
unfolding modify
registered-Accounts (ok ids) rt a = register_all-Keeping ids rt a
registered-Accounts (err e) rt a = a
registered-Accounts stuck rt a = a

-- The part of the handler behind its checks.
abbrev request_blocks : ℕ → ℕ → Exec Runtime (List ℤ)
request_blocks ctx n = in_context ctx (Context.allocate_blocks (pos n))

requested-Accounts :
    (ctx n : ℕ) (rt : Runtime)
    → n ≤ length rt.l1_allocator.free_list
    → Accounts rt
    → let rt' = reclaim_unused_resident_blocks rt in
      Accounts
        (continue
          (request_blocks ctx n rt').0
          (λ ids. modify (register_all ids))
          (request_blocks ctx n rt').1).1
requested-Accounts ctx n rt fits a =
    let rt' = reclaim_unused_resident_blocks rt in
    let f : Frames rt rt' = reclaim-Frames rt in
    let b : Accounts rt' = Frames-Accounts rt rt' f a in
    registered-Accounts (request_blocks ctx n rt').0 (request_blocks ctx n rt').1 (
      in_context-Accounts ctx (Context.allocate_blocks (pos n)) rt'
        (λ d. allocate_blocks-Moves n (session rt' d) b.valid (rw f.same_allocator fits)) b)

-- A request that fits the free blocks.
pub allocate_blocks-Accounts :
    (ctx n : ℕ) (rt : Runtime)
    → n ≤ length rt.l1_allocator.free_list
    → Keeping rt (allocate_blocks ctx n rt).1
unfolding allocate_blocks ◌>>=◌
allocate_blocks-Accounts ctx n rt fits a = elim (Option-cases (find_context ctx rt)) [
  | inl e ↦ rw e a
  | inr (c, e) ↦ elim (Bool-cases (ltb int_max n)) [
    | inl large ↦ rw (e, large) a
    | inr small ↦ rw (e, small) (requested-Accounts ctx n rt fits a)
  ]
]

direct-Frames : (f : BlockDirectory → Option BlockDirectory) (e : Error) → Keeps Frames (direct f e)
direct-Frames f e = record { at = λ rt. ground arith }

pub map_routed-Frames : (lb flags : ℕ) (r : PhysicalRoute) → Keeps Frames (map_routed lb flags r)
unfolding map_routed
map_routed-Frames lb flags r =
    search (frame_rules, ensure_resident_in_l1-Frames, direct-Frames) depth 30

pub map_logical_block-Keeping : (ctx lb flags : ℕ) → Keeps Keeping (map_logical_block ctx lb flags)
unfolding map_logical_block
map_logical_block-Keeping ctx lb flags =
    search
      (
        keeps_rules, Keeping-order, resolve_routing-Keeping, prepare_block_for_write-Keeping, frame,
        map_routed-Frames,
      )
      depth 30

unmap_routed-Frames : (id : ℤ) (flags : ℕ) → Keeps Frames (unmap_routed id flags)
unfolding unmap_routed
unmap_routed-Frames id flags = search (frame_rules, direct-Frames) depth 40

pub unmap_logical_block-Keeping :
    (ctx : ℕ) (b : MappedBlock) → Keeps Keeping (unmap_logical_block ctx b)
unfolding unmap_logical_block
unmap_logical_block-Keeping ctx b =
    search (keeps_rules, Keeping-order, resolve_routing-Keeping, frame, unmap_routed-Frames) depth
      30

move_to_tier-Frames : (t : Tier) (id : ℤ) → Keeps Frames (move_to_tier t id)
unfolding fail
move_to_tier-Frames l0 id = record { at = λ rt. Frames-refl rt }
move_to_tier-Frames l1 id = ensure_resident_in_l1-Frames id
move_to_tier-Frames l2 id = move_block_to_l2-Frames id

pub update_mapping-Keeping :
    (ctx lb : ℕ) (id : ℤ) (t : Tier) → Keeps Keeping (update_mapping ctx lb id t)
unfolding update_mapping
update_mapping-Keeping ctx lb id t =
    search
      (
        keeps_rules, Keeping-order, resolve_routing-Keeping, frame, frame_step, directory-Frames,
        forget_if_unused-Frames, move_to_tier-Frames, in_context-Keeping, update_mapping-Moves,
      )
      depth 30
