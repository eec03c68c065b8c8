-- ===== src/Data/Preparing/Histories.antt =====
-- Copy on write as a whole: the block that is prepared for a write reads as before, and no block in
-- use has changed.
use mmu.Prelude.{
  ℕ, ◌<◌, ℤ, pos, ◌==ℤ◌, ◌≡◌, refl, sym, ap, ◌∙◌, arith, true, false, Option, some, List, get_elem?,
  u32_mod, Bool-cases, inl, inr, ==ℤ_iff,
}
use mmu.Types.{OutPtr, ptr, l2, Result, ok, err, stuck, PhysicalRoute}
use mmu.Exec.{pure, ◌>>=◌, continue}
use mmu.BlockDirectory
use mmu.BlockDirectory.{BlockDirectory}
use mmu.BlockDirectory.Writes.{get-at}
use mmu.Context.{Session}
use mmu.Context.Freeing.{Preparing, prepare_block_for_write-Preparing}
use mmu.Config.{Config, Host}
use mmu.Runtime.{Runtime, Pool, in_context, store, session, directory}
use mmu.Residency.Calm.{flags}
use mmu.Residency.Fresh.{initialize-Calm}
use mmu.Api.{mmu_init, resolve_routing, clone_if_moved, prepare_block_for_write}
use mmu.History.{Action, performs}
use mmu.Settled.{Settled}
use mmu.Settled.Blocks.{routed, routed_meta, free_out}
use mmu.Settled.Paging.{tier-Calm}
use mmu.Data.{Apart, by_pool}
use mmu.Data.Moves.{block_data}
use mmu.Data.Housed.{IsHoused, entry, tier_of}
use mmu.Data.Housed.Replacing.{Orderly}
use mmu.Data.Housed.History.{history-Orderly}
use mmu.Data.Preparing.{Prepared, Quiet, IsHoused-IsHomed, cloned-Prepared}

-- The tier of a route is that of its block in the directory.
routed_tier :
    (ctx lb i : ℕ) (rt : Runtime) (r : PhysicalRoute)
    → (resolve_routing ctx lb ptr rt).0 ≡ ok r
    → r.physical_block_id ≡ pos i
    → r.tier ≡ tier_of (entry rt i)
routed_tier ctx lb i rt r done at =
    let (m, held, tier) = routed_meta ctx lb rt r done in
    tier
    ∙ sym (
        ap tier_of (
          sym (get-at rt.block_directory i)
          ∙ ap (BlockDirectory.get rt.block_directory) (sym at)
          ∙ held))

module _ (route : PhysicalRoute) (ctx : ℕ) (rt : Runtime) (g : IsHoused rt)
    (at : (i : ℕ) → route.physical_block_id ≡ pos i → route.tier ≡ tier_of (entry rt i)) where
  unmoved-Prepared :
      (id : ℤ) (s : Session)
      → (id ==ℤ route.physical_block_id) ≡ true
      → Prepared route.physical_block_id rt (ok id) (store ctx rt s)
  unmoved-Prepared id s same = record {
    prepared_data = λ i n from done k lt.
        let moved : id ≡ pos n = cc (done) in
        let back : id ≡ route.physical_block_id =
          ground (arith, same, ==ℤ_iff id route.physical_block_id) in
        let one : n ≡ i = cc (moved, back, from) in ap (λ m. block_data rt m k) one;
    prepared_others = λ j used k lt. refl;
  }

  new-Prepared :
      (n : ℕ) (s : Session)
      → (pos n ==ℤ route.physical_block_id) ≡ false
      → get_elem? (flags rt) n ≡ some false
      → get_elem? rt.l1_allocator.ref_counts n ≡ some 0
      → let b = (clone_if_moved route (pos n) >>= λ _. pure (pos n)) (store ctx rt s) in
        Prepared route.physical_block_id rt b.0 b.1
  unfolding ◌>>=◌
  new-Prepared n s moved out free = rw moved (
      cloned-Prepared n rt tiered quiet free route.physical_block_id route.tier apart
        (λ i from. IsHoused-IsHomed i route.tier rt g (at i from)))
    where
      opened : Runtime
      opened = directory (λ d. BlockDirectory.initialize_fresh_block d (pos n)) (store ctx rt s)

      tiered : Runtime
      tiered = directory (λ d. BlockDirectory.set_tier d (pos n) l2) opened

      quiet : Quiet rt tiered
      quiet = record {
        quiet_flags =
            (tier-Calm (pos n) l2 opened).same_flags
            ∙ (initialize-Calm n (store ctx rt s) out).same_flags;
        quiet_pools = by_pool _ refl refl;
        quiet_config = refl;
      }

      apart : Apart tiered
      apart = by_pool _ (g.apart Pool.l1_pool) (g.apart Pool.l2_pool)

  pub after-Prepared :
      (r : Result ℤ) (s : Session)
      → Settled rt
      → Preparing route.physical_block_id rt.l1_allocator r s.manager
      → let b = continue r (λ id. clone_if_moved route id >>= λ _. pure id) (store ctx rt s) in
        Prepared route.physical_block_id rt b.0 b.1
  unfolding ◌>>=◌ pure
  after-Prepared (ok id) s h (spared, origin) = elim (Bool-cases (id ==ℤ route.physical_block_id)) [
    | inl same ↦ rw same (unmoved-Prepared id s same)
    | inr moved ↦ elim origin [
      | inl eq ↦ absurd (ground (arith, moved, ==ℤ_iff id route.physical_block_id, eq))
      | inr (n, eq, free) ↦
          let moved' : (pos n ==ℤ route.physical_block_id) ≡ false = rw (← eq) moved in
          rw eq (new-Prepared n s moved' (free_out n rt h free) free)
    ]
  ]
  after-Prepared (err e) s h p = record {
    prepared_data = λ i n from done. absurd (cc (done));
    prepared_others = λ j used k lt. refl;
  }
  after-Prepared stuck s h p = absurd (cc)

pub prepare-Prepared :
    (ctx lb : ℕ) (rt : Runtime) (r : PhysicalRoute)
    → Orderly rt
    → (resolve_routing ctx lb ptr rt).0 ≡ ok r
    → let b = prepare_block_for_write ctx lb rt in Prepared r.physical_block_id rt b.0 b.1
unfolding prepare_block_for_write ◌>>=◌ in_context
prepare-Prepared ctx lb rt r (h, g) known = elim (routed ctx lb rt) [
  | inl (e, failed) ↦ absurd (cc (known, ap (λ p. p.0) failed))
  | inr (c, r', done, found, int, at) ↦
      let here = ap (λ p. p.0) done in
      let same : r' ≡ r = cc (known, here) in
      rw (← same, done, int, found)
        (after-Prepared r' ctx rt g (λ i from. routed_tier ctx lb i rt r' here from) _ _ h
          (prepare_block_for_write-Preparing (pos lb) r'.physical_block_id (session rt c)
            h.loose.valid at))
]

module _ (h : Host) (c : Option Config) (o : OutPtr) (rt : Runtime)
    (started : mmu_init h c o ≡ ok rt) (narrow : rt.config.l1_block_count < u32_mod)
    (calls : List Action) (rt' : Runtime) (made : performs calls (some rt) ≡ some rt') where
  -- After any history of calls on a new runtime, whose number of blocks is a uint32_t: if a logical
  -- block is routed to a physical block, then preparing it for a write, whatever the result is,
  -- keeps the bytes of every block that has references. On success the block that is returned has
  -- the bytes that the routed one had.
  pub performs-Prepared :
      (ctx lb : ℕ) (r : PhysicalRoute)
      → (resolve_routing ctx lb ptr rt').0 ≡ ok r
      → let b = prepare_block_for_write ctx lb rt' in Prepared r.physical_block_id rt' b.0 b.1
  performs-Prepared ctx lb r =
      prepare-Prepared ctx lb rt' r (history-Orderly h c o rt started narrow calls rt' made)
