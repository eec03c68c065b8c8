-- ===== src/Data/Sizes.antt =====
-- Mapping a logical block leaves the configuration alone, and with it the size of a block.
use mmu.Prelude.{ℕ, ℤ, ◌≡◌, refl, ◌∙◌, Option-cases, inl, inr}
use mmu.Types.{OutPtr, Result, PhysicalRoute}
use mmu.Exec.{Exec}
use mmu.Exec.Keeps.{Keeps, Order, keeps_rules}
use mmu.Context.{Session}
use mmu.Runtime.{Runtime, in_context, find_context}
use mmu.Frame.{Frames}
use mmu.Frame.Residency.{clone_block_data_for_cow-Frames}
use mmu.Accounts.Calls.{map_routed-Frames}
use mmu.Api.{resolve_routing, prepare_block_for_write, lift, clone_if_moved}
use mmu.Api.Mapping.{map_logical_block}

abbrev SameConfig : Runtime → Runtime → Type 0
SameConfig rt rt' = rt'.config ≡ rt.config

SameConfig-order : Order SameConfig
SameConfig-order = record { rel_refl = λ s. refl; rel_trans = λ s t u e f. f ∙ e }

frame : {A : Type 0} (m : Exec Runtime A) → Keeps Frames m → Keeps SameConfig m
frame m k = record { at = λ rt. (k.at rt).same_config }

in_context-SameConfig :
    {A : Type 0} (ctx : ℕ) (m : Exec Session A) → Keeps SameConfig (in_context ctx m)
unfolding in_context
in_context-SameConfig ctx m = record {
  at = λ rt. elim (Option-cases (find_context ctx rt)) [
    | inl e ↦ rw e refl
    | inr (c, e) ↦ rw e refl
  ];
}

lift-SameConfig : {A : Type 0} (r : Result A) → Keeps SameConfig (lift r)
lift-SameConfig r = record { at = λ rt. refl }

resolve_routing-SameConfig : (ctx lb : ℕ) (o : OutPtr) → Keeps SameConfig (resolve_routing ctx lb o)
unfolding resolve_routing
resolve_routing-SameConfig ctx lb o =
    search (keeps_rules, SameConfig-order, lift-SameConfig) depth 20

clone_if_moved-SameConfig : (r : PhysicalRoute) (id : ℤ) → Keeps SameConfig (clone_if_moved r id)
clone_if_moved-SameConfig r id =
    search (keeps_rules, SameConfig-order, frame, clone_block_data_for_cow-Frames) depth 20

prepare_block_for_write-SameConfig :
    (ctx lb : ℕ) → Keeps SameConfig (prepare_block_for_write ctx lb)
unfolding prepare_block_for_write
prepare_block_for_write-SameConfig ctx lb =
    search
      (
        keeps_rules, SameConfig-order, resolve_routing-SameConfig, clone_if_moved-SameConfig,
        in_context-SameConfig,
      )
      depth 20

pub map_logical_block-SameConfig :
    (ctx lb flags : ℕ) → Keeps SameConfig (map_logical_block ctx lb flags)
unfolding map_logical_block
map_logical_block-SameConfig ctx lb flags =
    search
      (
        keeps_rules, SameConfig-order, resolve_routing-SameConfig,
        prepare_block_for_write-SameConfig, frame, map_routed-Frames,
      )
      depth 30
