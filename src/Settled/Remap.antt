-- ===== src/Settled/Remap.antt =====
-- Remapping through the test API keeps a runtime settled.
use mmu.Prelude.{
  ℕ, ℤ, pos, negsuc, ◌==ℤ◌, true, false, ◌≡◌, refl, inl, inr, Bool-cases, if◌then◌else◌,
  Option-cases, ltb, int_max,
}
use mmu.Types.{Result, ok, err, stuck, Error, ptr, Tier, l2, l0, l1}
use mmu.Exec.{pure, ◌>>=◌, continue, fail}
use mmu.Exec.Returns.{returns}
use mmu.Context.{Session}
use mmu.Context.Freeing.{Updating, update_mapping-Updating}
use mmu.Runtime.{Runtime, find_context, store, session, in_context}
use mmu.Api.{resolve_routing}
use mmu.Api.TestApi.{update_mapping, replace_blocks, move_to_tier, is_negative}
use mmu.Settled.Steps.{ensure_resident_in_l1-Settles, move_block_to_l2-Settles}
use mmu.Settled.{Settled, store-SettledBut, forget_if_unused-Settled}
use mmu.Settled.Rules.{Settles, continue-Settles}
use mmu.Settled.Blocks.{routed, free_out, fresh-SettledBut}

-- After the method: a block that was free takes the entry over, and the old one may be forgotten.
abbrev after_remap : ℤ → ℤ → Tier → Result (Unit {0}) → Runtime → Result (Unit {0}) × Runtime
after_remap x id tier r rt =
    continue r
      (λ _. (if x ==ℤ id then pure tt else replace_blocks x id) >>= λ _. move_to_tier tier id) rt

move_to_tier-Settles : (t : Tier) (id : ℤ) → Settles (move_to_tier t id)
unfolding fail
move_to_tier-Settles l0 id = record { settles = λ rt h. (h, refl) }
move_to_tier-Settles l1 id = ensure_resident_in_l1-Settles id
move_to_tier-Settles l2 id = move_block_to_l2-Settles id

replaced-settles :
    (x : ℤ) (ctx : ℕ) (rt : Runtime) (id : ℤ) (s : Session)
    → Settled rt
    → Updating x id rt.l1_allocator (ok tt) s.manager
    → let m = if x ==ℤ id then pure tt else replace_blocks x id in
      Settled (m (store ctx rt s)).1 × (returns (m (store ctx rt s)).0 ≡ true)
unfolding ◌>>=◌
replaced-settles x ctx rt id s h (inl (same, spared)) =
    rw same (store-SettledBut (negsuc 0) ctx rt s h spared, refl)
replaced-settles x ctx rt id s h (inr (other, spared, (n, eq, free))) = rw other (
  rw eq (
      forget_if_unused-Settled x _ (
        fresh-SettledBut x n (store ctx rt s) (store-SettledBut x ctx rt s h spared)
          (free_out n rt h free))),
  refl,
)

after_remap-settles :
    (x id : ℤ) (tier : Tier) (ctx : ℕ) (rt : Runtime) (r : Result (Unit {0})) (s : Session)
    → Settled rt
    → Updating x id rt.l1_allocator r s.manager
    → Settled (after_remap x id tier r (store ctx rt s)).1
      × (returns (after_remap x id tier r (store ctx rt s)).0 ≡ true)
unfolding ◌>>=◌
after_remap-settles x id tier ctx rt (ok u) s h p =
    continue-Settles _ (λ _. move_to_tier tier id) _ (replaced-settles x ctx rt id s h p)
      (λ _. move_to_tier-Settles tier id)
after_remap-settles x id tier ctx rt (err e) s h p =
    (store-SettledBut (negsuc 0) ctx rt s h p, refl)
after_remap-settles x id tier ctx rt stuck s h p = absurd (cc)

unrouted-settles :
    (ctx lb : ℕ) (id : ℤ) (tier : Tier) (rt : Runtime)
    → Settled rt
    → (e : Error) → resolve_routing ctx lb ptr rt ≡ (err e, rt)
    → is_negative id ≡ false
    → Settled (update_mapping ctx lb id tier rt).1
      × (returns (update_mapping ctx lb id tier rt).0 ≡ true)
unfolding update_mapping ◌>>=◌
unrouted-settles ctx lb id tier rt h x failed neg = elim (Option-cases (find_context ctx rt)) [
  | inl e ↦ rw e (h, refl)
  | inr (c, e) ↦ elim (Bool-cases (ltb int_max lb)) [
    | inl large ↦ rw (e, neg, large) (h, refl)
    | inr small ↦ rw (e, neg, small, failed) (h, refl)
  ]
]

pub update_mapping-Settles :
    (ctx lb : ℕ) (id : ℤ) (tier : Tier) → Settles (update_mapping ctx lb id tier)
unfolding update_mapping ◌>>=◌ in_context
update_mapping-Settles ctx lb id tier = record {
  settles = λ rt h. elim (Bool-cases (is_negative id)) [
    | inl neg ↦ elim (Option-cases (find_context ctx rt)) [
      | inl e ↦ rw e (h, refl)
      | inr (c, e) ↦ rw (e, neg) (h, refl)
    ]
    | inr neg ↦ elim (routed ctx lb rt) [
      | inl (x, failed) ↦ unrouted-settles ctx lb id tier rt h x failed neg
      | inr (c, r, done, found, int, at) ↦
          rw (found, neg, int, done, found)
            (after_remap-settles r.physical_block_id id tier ctx rt _ _ h (
              update_mapping-Updating (pos lb) r.physical_block_id id (session rt c) h.loose.valid
                at))
    ]
  ];
}
