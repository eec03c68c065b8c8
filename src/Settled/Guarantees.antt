-- ===== src/Settled/Guarantees.antt =====
-- What a client can rely on after any history of calls on a new runtime.
use mmu.Prelude.{
  ℕ, zero, suc, ◌+◌, ltb, ◌<◌, ◌≤◌, List, [], ◌∷◌, Option, none, some, ◌≡◌, refl, sym, subst, ap,
  ◌∙◌, arith, true, false, length, get_elem?, tally, u32_mod, replicate, length-replicate,
}
use mmu.Types.{OutPtr, ok}
use mmu.BlockManager
use mmu.BlockManager.{count_at, capacity}
use mmu.BlockManager.Conservation.{free_blocks_capacity}
use mmu.Api.Queries.{mmu_get_free_block_count}
use mmu.BlockManager.Invariant.{init-IsValid}
use mmu.BlockDirectory
use mmu.BlockDirectory.{default_meta}
use mmu.Config.{Config, Host, resolve}
use mmu.Config.Bounds.{resolved_bounds, mmu_init-eq, mmu_init-null}
use mmu.Runtime.{Runtime, new_runtime}
use mmu.Residency.Flags.{flags_of}
use mmu.Residency.Calm.{flags}
use mmu.Residency.Eviction.{is_set}
use mmu.Api.{Handle, mmu_init}
use mmu.History.{Action, performs, perform}
use mmu.Settled.{Settled}
use mmu.Settled.History.{SettledAt, comes_back, perform-settles}

flags_of-replicate : (n : ℕ) → flags_of (replicate n default_meta) ≡ replicate n false
flags_of-replicate zero = refl
flags_of-replicate (suc n) = ap (◌∷◌ false) (flags_of-replicate n)

tally-replicate-false : (n : ℕ) → tally is_set (replicate n false) ≡ 0
tally-replicate-false zero = refl
tally-replicate-false (suc n) = omega (arith, tally-replicate-false n)

none_set : (n j : ℕ) → get_elem? (replicate n false) j ≡ some true → ⊥
none_set zero j h = cc (h)
none_set (suc n) zero h = cc (h)
none_set (suc n) (suc j) h = none_set n j h

new_runtime-Settled :
    (h : Host) (c : Config) → c.l1_resident_block_limit < u32_mod → Settled (new_runtime h c)
unfolding new_runtime BlockManager.init BlockDirectory.init
new_runtime-Settled h c narrow = record {
  loose = record {
    bounded = record {
      counted = sym (ap (tally is_set) (flags_of-replicate n) ∙ tally-replicate-false n);
      within = omega arith;
      narrow = narrow;
    };
    valid = init-IsValid c.l1_block_count;
    blocks =
        ap length (flags_of-replicate n) ∙ length-replicate n false ∙ sym (length-replicate n 0);
    capacity = sym (length-replicate n 0);
  };
  backed = λ j ne res.
      absurd (none_set n j (ap (λ fs. get_elem? fs j) (sym (flags_of-replicate n)) ∙ res));
}
  where
    n : ℕ
    n = c.l1_block_count

resolve_blocks : (h : Host) (c : Config) → (resolve h c).l1_block_count ≡ c.l1_block_count
unfolding resolve
resolve_blocks h c = refl

pub mmu_init-Settled :
    (h : Host) (c : Option Config) (o : OutPtr) (rt : Runtime)
    → mmu_init h c o ≡ ok rt
    → rt.config.l1_block_count < u32_mod
    → Settled rt
unfolding new_runtime
mmu_init-Settled h none o rt e narrow = absurd (mmu_init-null h o rt e)
mmu_init-Settled h (some c) o rt e narrow =
    let (same, blocks, bytes) = mmu_init-eq h c o rt e in
    let limits = resolved_bounds h c blocks in
    let configured : rt.config.l1_block_count ≡ (resolve h c).l1_block_count =
      ap (λ r. r.config.l1_block_count) same in
    rw same (
      new_runtime-Settled h (resolve h c)
        (omega (arith, narrow, configured, limits.1, resolve_blocks h c)))

performs-SettledAt : (cs : List Action) (mmu : Handle) → SettledAt mmu → SettledAt (performs cs mmu)
performs-SettledAt [] mmu h = h
performs-SettledAt (c ∷ cs) mmu h =
    performs-SettledAt cs (perform c mmu) (perform-settles c mmu h).0

module _ (h : Host) (c : Option Config) (o : OutPtr) (rt : Runtime)
    (started : mmu_init h c o ≡ ok rt) (narrow : rt.config.l1_block_count < u32_mod)
    (calls : List Action) where
  pub history-SettledAt : SettledAt (performs calls (some rt))
  history-SettledAt = performs-SettledAt calls (some rt) (mmu_init-Settled h c o rt started narrow)

  -- After any history of calls on a new runtime, whose number of blocks is a uint32_t, the count of
  -- resident blocks is the number of blocks that are resident in L1, and at most the limit.
  pub performs-within_limit :
      (rt' : Runtime)
      → performs calls (some rt) ≡ some rt'
      → (rt'.resident_count ≡ tally is_set (flags rt')) × (rt'.resident_count ≤ rt'.resident_limit)
  performs-within_limit rt' e =
      let s : Settled rt' = subst SettledAt e history-SettledAt in
      (s.loose.bounded.counted, s.loose.bounded.within)

  -- After any history of calls on a new runtime, whose number of blocks is a uint32_t, a block that
  -- is resident in L1 has a reference.
  pub performs-referenced :
      (rt' : Runtime) (j : ℕ)
      → performs calls (some rt) ≡ some rt'
      → get_elem? (flags rt') j ≡ some true
      → 0 < count_at rt'.l1_allocator j
  performs-referenced rt' j e res =
      let s : Settled rt' = subst SettledAt e history-SettledAt in s.backed j refl res

  -- After any history of calls on a new runtime, whose number of blocks is a uint32_t, the free
  -- blocks that the API reports and the blocks with a reference make up the configured number of
  -- blocks.
  pub performs-free_blocks :
      (rt' : Runtime)
      → performs calls (some rt) ≡ some rt'
      → mmu_get_free_block_count (some rt') + tally (λ r. ltb 0 r) rt'.l1_allocator.ref_counts
        ≡ rt'.config.l1_block_count
  unfolding mmu_get_free_block_count capacity
  performs-free_blocks rt' e =
      let s : Settled rt' = subst SettledAt e history-SettledAt in
      omega (arith, free_blocks_capacity rt'.l1_allocator s.loose.valid, s.loose.capacity)

  -- After any history of calls on a new runtime, whose number of blocks is a uint32_t, every further
  -- call comes back with a result or an error: no loop runs out of its fuel.
  pub performs-comes_back : (call : Action) → comes_back call (performs calls (some rt)) ≡ true
  performs-comes_back call = (perform-settles call (performs calls (some rt)) history-SettledAt).1
