-- ===== src/Data/Housed/Calls.antt =====
-- The handlers keep every block housed.
use mmu.Prelude.{
  ℕ, ℤ, pos, ◌==ℤ◌, refl, Option, none, some, List, [], ◌∷◌, Bool-cases, Option-cases, inl, inr,
}
use mmu.Types.{OutPtr, Tier, l0, l1, l2, Result, MappedBlock}
use mmu.Exec.{Exec, fail}
use mmu.Exec.Keeps.{Keeps, keeps_rules}
use mmu.BlockManager
use mmu.Context.{Context, Session}
use mmu.Runtime.{Runtime, find_context, in_context, run_session, store}
use mmu.Residency.{register_fresh_block}
use mmu.Api.{
  create_context, destroy_context, fork_context, fork_found, register_all, allocate_blocks, lift,
  resolve_routing, forget_if_unused, release_logical_block,
}
use mmu.Api.Mapping.{unmap_logical_block}
use mmu.Api.TestApi.{move_to_tier}
use mmu.Data.{by_pool}
use mmu.Data.Housed.{StaysHoused, StaysHoused-order, fields-StaysHoused}
use mmu.Data.Housed.Moves.{move_block_to_l2-StaysHoused}
use mmu.Data.Housed.Reclaim.{forget_block-StaysHoused, reclaim-StaysHoused}
use mmu.Data.Housed.Fresh.{register_fresh_block-StaysHoused}
use mmu.Data.Housed.Ensuring.{ensure_resident_in_l1-StaysHoused}
use mmu.Data.Housed.Mapping.{unmap_routed-StaysHoused}

pub create_context-StaysHoused : Keeps StaysHoused create_context
unfolding create_context
create_context-StaysHoused = record {
  at = λ rt. fields-StaysHoused rt (create_context rt).1 refl (by_pool _ refl refl) refl;
}

fork_found-StaysHoused : (c : Context) → Keeps StaysHoused (fork_found c)
fork_found-StaysHoused c = record {
  at = λ rt. fields-StaysHoused rt (fork_found c rt).1 refl (by_pool _ refl refl) refl;
}

pub fork_context-StaysHoused : (ctx : ℕ) → Keeps StaysHoused (fork_context ctx)
unfolding fork_context
fork_context-StaysHoused ctx =
    search (keeps_rules, StaysHoused-order, fork_found-StaysHoused) depth 20

pub destroy_context-StaysHoused : (ctx : ℕ) (rt : Runtime) → StaysHoused rt (destroy_context ctx rt)
unfolding destroy_context
destroy_context-StaysHoused ctx rt g = elim (Option-cases (find_context ctx rt)) [
  | inl e ↦ rw e g
  | inr (c, e) ↦
      rw e (reclaim-StaysHoused _ (fields-StaysHoused rt _ refl (by_pool _ refl refl) refl g))
]

pub store-StaysHoused : (ctx : ℕ) (rt : Runtime) (s : Session) → StaysHoused rt (store ctx rt s)
store-StaysHoused ctx rt s = fields-StaysHoused rt (store ctx rt s) refl (by_pool _ refl refl) refl

run_session-StaysHoused :
    {A : Type 0} (ctx : ℕ) (m : Exec Session A) (c : Option Context) (rt : Runtime)
    → StaysHoused rt (run_session ctx m rt c).1
run_session-StaysHoused ctx m none rt g = g
run_session-StaysHoused ctx m (some c) rt g =
    fields-StaysHoused rt (run_session ctx m rt (some c)).1 refl (by_pool _ refl refl) refl g

in_context-StaysHoused :
    {A : Type 0} (ctx : ℕ) (m : Exec Session A) → Keeps StaysHoused (in_context ctx m)
unfolding in_context
in_context-StaysHoused ctx m = record {
  at = λ rt. run_session-StaysHoused ctx m (find_context ctx rt) rt;
}

register_all-StaysHoused : (ids : List ℤ) (rt : Runtime) → StaysHoused rt (register_all ids rt)
unfolding register_all
register_all-StaysHoused [] rt g = g
register_all-StaysHoused (id ∷ ids) rt g =
    register_all-StaysHoused ids (register_fresh_block id rt)
      (register_fresh_block-StaysHoused id rt g)

pub allocate_blocks-StaysHoused : (ctx n : ℕ) → Keeps StaysHoused (allocate_blocks ctx n)
unfolding allocate_blocks
allocate_blocks-StaysHoused ctx n =
    search
      (
        keeps_rules, StaysHoused-order, reclaim-StaysHoused, in_context-StaysHoused,
        register_all-StaysHoused,
      )
      depth 30

lift-StaysHoused : {A : Type 0} (r : Result A) → Keeps StaysHoused (lift r)
lift-StaysHoused r = record { at = λ rt g. g }

resolve_routing-StaysHoused :
    (ctx lb : ℕ) (o : OutPtr) → Keeps StaysHoused (resolve_routing ctx lb o)
unfolding resolve_routing
resolve_routing-StaysHoused ctx lb o =
    search (keeps_rules, StaysHoused-order, lift-StaysHoused) depth 30

pub forget_if_unused-StaysHoused : (id : ℤ) (rt : Runtime) → StaysHoused rt (forget_if_unused id rt)
forget_if_unused-StaysHoused id rt g =
    elim (Bool-cases (BlockManager.ref_count rt.l1_allocator id ==ℤ pos 0)) [
      | inl t ↦ rw t (forget_block-StaysHoused id rt g)
      | inr f ↦ rw f g
    ]

pub release_logical_block-StaysHoused :
    (ctx lb : ℕ) → Keeps StaysHoused (release_logical_block ctx lb)
unfolding release_logical_block
release_logical_block-StaysHoused ctx lb =
    search
      (
        keeps_rules, StaysHoused-order, resolve_routing-StaysHoused, in_context-StaysHoused,
        forget_if_unused-StaysHoused,
      )
      depth 30

pub unmap_logical_block-StaysHoused :
    (ctx : ℕ) (b : MappedBlock) → Keeps StaysHoused (unmap_logical_block ctx b)
unfolding unmap_logical_block
unmap_logical_block-StaysHoused ctx b =
    search (keeps_rules, StaysHoused-order, resolve_routing-StaysHoused, unmap_routed-StaysHoused)
      depth 30

pub move_to_tier-StaysHoused : (t : Tier) (id : ℤ) → Keeps StaysHoused (move_to_tier t id)
unfolding fail
move_to_tier-StaysHoused l0 id = record { at = λ rt g. g }
move_to_tier-StaysHoused l1 id = ensure_resident_in_l1-StaysHoused id
move_to_tier-StaysHoused l2 id = move_block_to_l2-StaysHoused id
