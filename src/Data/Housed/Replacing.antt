-- ===== src/Data/Housed/Replacing.antt =====
-- The handlers that put a free block in the place of another keep every block housed, in a settled
-- runtime.
use mmu.Prelude.{
  ℕ, ℤ, pos, ◌==ℤ◌, ◌≡◌, ap, ◌∙◌, arith, false, some, Bool-cases, Option-cases, inl, inr,
  if◌then◌else◌, ==ℤ_iff, get_elem?, ltb, int_max,
}
use mmu.Types.{ptr, Tier, l2, Result, ok, err, stuck, Error, PhysicalRoute}
use mmu.Exec.{pure, ◌>>=◌, continue}
use mmu.Exec.Keeps.{Keeps, Order, keeps_rules}
use mmu.BlockDirectory
use mmu.Context.{Session}
use mmu.Context.Freeing.{
  Preparing, Updating, prepare_block_for_write-Preparing, update_mapping-Updating,
}
use mmu.Runtime.{Runtime, find_context, in_context, store, session, directory}
use mmu.Residency.Calm.{flags}
use mmu.Residency.Fresh.{initialize-Calm}
use mmu.Api.{resolve_routing, clone_if_moved, prepare_block_for_write}
use mmu.Api.Mapping.{map_routed, map_logical_block}
use mmu.Api.TestApi.{update_mapping, replace_blocks, move_to_tier, is_negative}
use mmu.Settled.{Settled}
use mmu.Settled.Blocks.{routed, free_out, prepare_block_for_write-Settles}
use mmu.Settled.Paging.{map_routed-Settles, tier-Calm}
use mmu.Data.Housed.{IsHoused}
use mmu.Data.Housed.Promotion.{continue-IsHoused}
use mmu.Data.Housed.Vacant.{initialize-StaysHoused, tier-StaysHoused, clone-StaysHoused}
use mmu.Data.Housed.Mapping.{map_routed-IsHoused}
use mmu.Data.Housed.Calls.{
  store-StaysHoused, forget_if_unused-StaysHoused, move_to_tier-StaysHoused,
}

-- A settled runtime in which every block is housed.
abbrev pub Orderly : Runtime → Type 0
Orderly rt = Settled rt × IsHoused rt

abbrev pub StaysOrderly : Runtime → Runtime → Type 0
StaysOrderly a b = Orderly a → Orderly b

pub StaysOrderly-order : Order StaysOrderly
StaysOrderly-order = record { rel_refl = λ a h. h; rel_trans = λ a b c f g h. g (f h) }

-- The data of the old block goes to a new one that is not resident.
cloned-IsHoused :
    (route : PhysicalRoute) (n : ℕ) (rt : Runtime)
    → (pos n ==ℤ route.physical_block_id) ≡ false
    → get_elem? (flags rt) n ≡ some false
    → IsHoused rt
    → IsHoused (clone_if_moved route (pos n) rt).1
unfolding ◌>>=◌
cloned-IsHoused route n rt moved out g = rw moved (
    clone-StaysHoused n tiered tiered_out route.physical_block_id route.tier
      (tier-StaysHoused n opened opened_out l2 (initialize-StaysHoused n rt out g)))
  where
    opened : Runtime
    opened = directory (λ d. BlockDirectory.initialize_fresh_block d (pos n)) rt

    tiered : Runtime
    tiered = directory (λ d. BlockDirectory.set_tier d (pos n) l2) opened

    opened_out : get_elem? (flags opened) n ≡ some false
    opened_out = ap (λ fs. get_elem? fs n) (initialize-Calm n rt out).same_flags ∙ out

    tiered_out : get_elem? (flags tiered) n ≡ some false
    tiered_out = ap (λ fs. get_elem? fs n) (tier-Calm (pos n) l2 opened).same_flags ∙ opened_out

prepared-IsHoused :
    (route : PhysicalRoute) (ctx : ℕ) (rt : Runtime) (id : ℤ) (s : Session)
    → Orderly rt
    → Preparing route.physical_block_id rt.l1_allocator (ok id) s.manager
    → IsHoused (clone_if_moved route id (store ctx rt s)).1
unfolding pure
prepared-IsHoused route ctx rt id s (h, g) (spared, origin) =
    elim (Bool-cases (id ==ℤ route.physical_block_id)) [
      | inl same ↦ rw same (store-StaysHoused ctx rt s g)
      | inr moved ↦ elim origin [
        | inl eq ↦ absurd (ground (arith, moved, ==ℤ_iff id route.physical_block_id, eq))
        | inr (n, eq, free) ↦
            let moved' : (pos n ==ℤ route.physical_block_id) ≡ false = rw (← eq) moved in
            rw eq (
              cloned-IsHoused route n (store ctx rt s) moved' (free_out n rt h free)
                (store-StaysHoused ctx rt s g))
      ]
    ]

abbrev after_prepare : PhysicalRoute → Result ℤ → Runtime → Result ℤ × Runtime
after_prepare route r rt = continue r (λ id. clone_if_moved route id >>= λ _. pure id) rt

after_prepare-IsHoused :
    (route : PhysicalRoute) (ctx : ℕ) (rt : Runtime) (r : Result ℤ) (s : Session)
    → Orderly rt
    → Preparing route.physical_block_id rt.l1_allocator r s.manager
    → IsHoused (after_prepare route r (store ctx rt s)).1
unfolding ◌>>=◌ pure
after_prepare-IsHoused route ctx rt (ok id) s h p =
    let c = prepared-IsHoused route ctx rt id s h p in
    continue-IsHoused (clone_if_moved route id (store ctx rt s)).1
      (clone_if_moved route id (store ctx rt s)).0 (λ _. pure id) c (λ u e. c)
after_prepare-IsHoused route ctx rt (err e) s (h, g) p = store-StaysHoused ctx rt s g
after_prepare-IsHoused route ctx rt stuck s h p = absurd (cc)

prepare-IsHoused :
    (ctx lb : ℕ) (rt : Runtime) → Orderly rt → IsHoused (prepare_block_for_write ctx lb rt).1
unfolding prepare_block_for_write ◌>>=◌ in_context
prepare-IsHoused ctx lb rt (h, g) = elim (routed ctx lb rt) [
  | inl (e, failed) ↦ rw failed g
  | inr (c, r, done, found, int, at) ↦
      rw (done, int, found)
        (after_prepare-IsHoused r ctx rt _ _ (h, g)
          (prepare_block_for_write-Preparing (pos lb) r.physical_block_id (session rt c)
            h.loose.valid at))
]

pub prepare_block_for_write-StaysOrderly :
    (ctx lb : ℕ) → Keeps StaysOrderly (prepare_block_for_write ctx lb)
prepare_block_for_write-StaysOrderly ctx lb = record {
  at = λ rt h.
      (((prepare_block_for_write-Settles ctx lb).settles rt h.0).0, prepare-IsHoused ctx lb rt h);
}

map_routed-StaysOrderly :
    (lb map_flags : ℕ) (r : PhysicalRoute) → Keeps StaysOrderly (map_routed lb map_flags r)
map_routed-StaysOrderly lb map_flags r = record {
  at = λ rt h. (
    ((map_routed-Settles lb map_flags r).settles rt h.0).0,
    map_routed-IsHoused lb map_flags r rt h.0.loose.bounded h.1,
  );
}

routing-StaysOrderly : (ctx lb : ℕ) → Keeps StaysOrderly (resolve_routing ctx lb ptr)
routing-StaysOrderly ctx lb = record {
  at = λ rt h. elim (routed ctx lb rt) [
    | inl (e, failed) ↦ rw failed h
    | inr (c, r, done, found, int, at) ↦ rw done h
  ];
}

pub map_logical_block-StaysOrderly :
    (ctx lb map_flags : ℕ) → Keeps StaysOrderly (map_logical_block ctx lb map_flags)
unfolding map_logical_block
map_logical_block-StaysOrderly ctx lb map_flags =
    search
      (
        keeps_rules, StaysOrderly-order, prepare_block_for_write-StaysOrderly, routing-StaysOrderly,
        map_routed-StaysOrderly,
      )
      depth 30

-- Remapping.
replaced-IsHoused :
    (x : ℤ) (ctx : ℕ) (rt : Runtime) (id : ℤ) (s : Session)
    → Orderly rt
    → Updating x id rt.l1_allocator (ok tt) s.manager
    → IsHoused ((if x ==ℤ id then pure tt else replace_blocks x id) (store ctx rt s)).1
unfolding ◌>>=◌ pure
replaced-IsHoused x ctx rt id s (h, g) (inl (same, spared)) = rw same (store-StaysHoused ctx rt s g)
replaced-IsHoused x ctx rt id s (h, g) (inr (other, spared, (n, eq, free))) =
    rw (other, eq)
      (forget_if_unused-StaysHoused x _ (
        initialize-StaysHoused n (store ctx rt s) (free_out n rt h free)
          (store-StaysHoused ctx rt s g)))

abbrev after_remap : ℤ → ℤ → Tier → Result (Unit {0}) → Runtime → Result (Unit {0}) × Runtime
after_remap x id tier r rt =
    continue r
      (λ _. (if x ==ℤ id then pure tt else replace_blocks x id) >>= λ _. move_to_tier tier id) rt

after_remap-IsHoused :
    (x id : ℤ) (tier : Tier) (ctx : ℕ) (rt : Runtime) (r : Result (Unit {0})) (s : Session)
    → Orderly rt
    → Updating x id rt.l1_allocator r s.manager
    → IsHoused (after_remap x id tier r (store ctx rt s)).1
unfolding ◌>>=◌
after_remap-IsHoused x id tier ctx rt (ok u) s h p =
    let c = replaced-IsHoused x ctx rt id s h p in
    continue-IsHoused _ _ (λ _. move_to_tier tier id) c
      (λ u e. (move_to_tier-StaysHoused tier id).at _ c)
after_remap-IsHoused x id tier ctx rt (err e) s (h, g) p = store-StaysHoused ctx rt s g
after_remap-IsHoused x id tier ctx rt stuck s h p = absurd (cc)

unrouted-IsHoused :
    (ctx lb : ℕ) (id : ℤ) (tier : Tier) (rt : Runtime)
    → IsHoused rt
    → (e : Error) → resolve_routing ctx lb ptr rt ≡ (err e, rt)
    → is_negative id ≡ false
    → IsHoused (update_mapping ctx lb id tier rt).1
unfolding update_mapping ◌>>=◌
unrouted-IsHoused ctx lb id tier rt g x failed neg = elim (Option-cases (find_context ctx rt)) [
  | inl e ↦ rw e g
  | inr (c, e) ↦ elim (Bool-cases (ltb int_max lb)) [
    | inl large ↦ rw (e, neg, large) g
    | inr small ↦ rw (e, neg, small, failed) g
  ]
]

pub update_mapping-IsHoused :
    (ctx lb : ℕ) (id : ℤ) (tier : Tier) (rt : Runtime)
    → Orderly rt
    → IsHoused (update_mapping ctx lb id tier rt).1
unfolding update_mapping ◌>>=◌ in_context
update_mapping-IsHoused ctx lb id tier rt (h, g) = elim (Bool-cases (is_negative id)) [
  | inl neg ↦ elim (Option-cases (find_context ctx rt)) [
    | inl e ↦ rw e g
    | inr (c, e) ↦ rw (e, neg) g
  ]
  | inr neg ↦ elim (routed ctx lb rt) [
    | inl (x, failed) ↦ unrouted-IsHoused ctx lb id tier rt g x failed neg
    | inr (c, r, done, found, int, at) ↦
        rw (found, neg, int, done, found)
          (after_remap-IsHoused r.physical_block_id id tier ctx rt _ _ (h, g)
            (update_mapping-Updating (pos lb) r.physical_block_id id (session rt c) h.loose.valid
              at))
  ]
]
