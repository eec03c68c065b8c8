-- ===== src/Data/Preparing.antt =====
-- Copy on write: what a preparation for a write leaves of the bytes, from the clone on.
pub mod Histories
use mmu.Prelude.{
  ℕ, ◌<◌, ℤ, pos, negsuc, ◌==ℤ◌, ◌≡◌, refl, sym, ap, ◌∙◌, arith, true, false, Option, some, List,
  get_elem?, lt_of_get_elem?, u32_mod, Bool-cases, inl, inr, ==ℤ_iff, ◌==◌,
}
use mmu.Types.{OutPtr, ptr, Tier, l2, Result, ok, err, stuck, PhysicalRoute}
use mmu.Exec.{pure, ◌>>=◌, continue}
use mmu.BlockManager
use mmu.BlockDirectory
use mmu.BlockDirectory.{BlockDirectory}
use mmu.BlockDirectory.Writes.{get-at}
use mmu.Context.{Session}
use mmu.Context.Freeing.{Preparing, prepare_block_for_write-Preparing}
use mmu.ChunkPool.{owner}
use mmu.Config.{Config, Host}
use mmu.Runtime.{Runtime, Pool, pool_of, in_context, store, session, directory}
use mmu.Paging.Pages.{content, Same}
use mmu.Residency.{is_resident}
use mmu.Residency.Calm.{flags}
use mmu.Residency.Fresh.{initialize-Calm}
use mmu.Api.{mmu_init, resolve_routing, clone_if_moved, prepare_block_for_write}
use mmu.Cow.{clone_block_data_for_cow}
use mmu.History.{Action, performs}
use mmu.Settled.{Settled}
use mmu.Settled.Blocks.{routed, routed_meta, free_out}
use mmu.Settled.Paging.{tier-Calm}
use mmu.Data.{Apart, by_pool}
use mmu.Data.Moves.{home, block_data, InUse}
use mmu.Data.Source.{IsHomed, flag_cases}
use mmu.Data.Finishing.{Clones}
use mmu.Data.Clone.{clone_block_data_for_cow-Clones}
use mmu.Data.Housed.{IsHoused, entry, tier_of}
use mmu.Data.Housed.Replacing.{Orderly}
use mmu.Data.Housed.History.{history-Orderly}

-- What a preparation of the logical block with physical block `x` has done, by its result.
pub record Prepared (x : ℤ) (a : Runtime) (r : Result ℤ) (b : Runtime) : Type 0 where
  pub prepared_data :
      (i n : ℕ)
      → x ≡ pos i
      → r ≡ ok (pos n)
      → Same a.config.block_size_bytes (block_data b n) (block_data a i)
  pub prepared_others :
      (j : ℕ) → InUse a j → Same a.config.block_size_bytes (block_data b j) (block_data a j)

-- The pages and the flags are the same.
pub record Quiet (a b : Runtime) : Type 0 where
  pub quiet_flags : flags b ≡ flags a
  pub quiet_pools : (p : Pool) → pool_of b p ≡ pool_of a p
  pub quiet_config : b.config ≡ a.config

Quiet-data : (a b : Runtime) (j : ℕ) → Quiet a b → block_data b j ≡ block_data a j
Quiet-data a b j q =
    ap (λ fs. content (pool_of b (home (get_elem? fs j))) j) q.quiet_flags
    ∙ ap (λ p. content p j) (q.quiet_pools (home (get_elem? (flags a) j)))

Quiet-IsHomed : (i : ℕ) (t : Tier) (a b : Runtime) → Quiet a b → IsHomed i t a → IsHomed i t b
Quiet-IsHomed i t a b q h = record {
  resident_tier = λ r. h.resident_tier (flag ∙ r);
  blank_behind = λ r o k lt.
      ap (λ p. content p i k) (q.quiet_pools Pool.l2_pool)
      ∙ h.blank_behind (flag ∙ r) (ap (λ p. owner p i) (sym (q.quiet_pools Pool.l1_pool)) ∙ o) k
          (omega (arith, lt, ap (λ c. c.block_size_bytes) q.quiet_config));
  no_l1 = λ r. ap (λ p. owner p i) (q.quiet_pools Pool.l1_pool) ∙ h.no_l1 (ap home flag ∙ r);
}
  where
    flag : get_elem? (flags a) i ≡ get_elem? (flags b) i
    flag = ap (λ fs. get_elem? fs i) (sym q.quiet_flags)

-- A housed block has its bytes where its flag and its tier say.
pub IsHoused-IsHomed :
    (i : ℕ) (t : Tier) (rt : Runtime) → IsHoused rt → t ≡ tier_of (entry rt i) → IsHomed i t rt
IsHoused-IsHomed i t rt g same = elim (flag_cases i rt) [
  | inl (y, flag) ↦
      let at : is_resident (entry rt i) ≡ true =
        ap is_resident (sym (get-at rt.block_directory i)) ∙ y in
      record {
        resident_tier = λ r. same ∙ (g.houses i).at_l1 at;
        blank_behind = λ r o. (g.houses i).blank at o;
        no_l1 = λ r. absurd (cc (r, ap home flag));
      }
  | inr (f, flag) ↦
      let at : is_resident (entry rt i) ≡ false =
        ap is_resident (sym (get-at rt.block_directory i)) ∙ f in
      record {
        resident_tier = λ r. absurd (cc (ap home r, flag));
        blank_behind = λ r. absurd (cc (ap home r, flag));
        no_l1 = λ r. (g.houses i).no_page at;
      }
]

used_ne :
    (n : ℕ) (rt : Runtime) (j : ℕ)
    → get_elem? rt.l1_allocator.ref_counts n ≡ some 0
    → InUse rt j
    → (n == j) ≡ false
unfolding BlockManager.ref_count
used_ne n rt j free used = elim (Bool-cases (n == j)) [
  | inr ne ↦ ne
  | inl e ↦
      let same : n ≡ j = ground (arith, e) in
      let there : get_elem? rt.l1_allocator.ref_counts j ≡ some 0 = rw (← same) free in
      absurd (ground (arith, there, lt_of_get_elem? rt.l1_allocator.ref_counts j there, used))
]

-- The clone into the free block `n`, from the state `a` with the entries of `n` written.
module _ (n : ℕ) (rt a : Runtime) (q : Quiet rt a)
    (free : get_elem? rt.l1_allocator.ref_counts n ≡ some 0) where
  wider : (k : ℕ) → k < rt.config.block_size_bytes → k < a.config.block_size_bytes
  wider k lt = omega (arith, lt, ap (λ c. c.block_size_bytes) q.quiet_config)

  others_kept :
      (b : Runtime)
      → ((j : ℕ)
          → (n == j) ≡ false
          → Same a.config.block_size_bytes (block_data b j) (block_data a j))
      → (j : ℕ) → InUse rt j
      → Same rt.config.block_size_bytes (block_data b j) (block_data rt j)
  others_kept b same j used k lt =
      same j (used_ne n rt j free used) k (wider k lt) ∙ ap (λ f. f k) (Quiet-data rt a j q)

  Clones-Prepared :
      (i : ℕ) (r : Result (Unit {0})) (b : Runtime)
      → Clones i n a r b
      → Prepared
          (pos i)
          rt
          (continue r (λ _. pure (pos n)) b).0
          (continue r (λ _. pure (pos n)) b).1
  unfolding pure
  Clones-Prepared i (ok u) b c = record {
    prepared_data = λ i' n' at done k lt.
        let here : i ≡ i' = cc (at) in
        let there : n ≡ n' = cc (done) in
        ap (λ m. block_data b m k) (sym there)
        ∙ c.cloned_data k (wider k lt)
        ∙ ap (λ f. f k) (Quiet-data rt a i q)
        ∙ ap (λ m. block_data rt m k) here;
    prepared_others = others_kept b c.cloned_others;
  }
  Clones-Prepared i (err e) b c = record {
    prepared_data = λ i' n' at done. absurd (cc (done));
    prepared_others = others_kept b c.spoiled_others;
  }
  Clones-Prepared i stuck b c = absurd (cc (c))

  pub cloned-Prepared :
      (x : ℤ) (t : Tier)
      → Apart a
      → ((i : ℕ) → x ≡ pos i → IsHomed i t rt)
      → let s = (clone_block_data_for_cow x t (pos n) >>= λ _. pure (pos n)) a in
        Prepared x rt s.0 s.1
  unfolding clone_block_data_for_cow ◌>>=◌ BlockManager.is_valid
  cloned-Prepared (pos i) t h at =
      Clones-Prepared i _ _
        (clone_block_data_for_cow-Clones i n t a h (Quiet-IsHomed i t rt a q (at i refl)))
  cloned-Prepared (negsuc i) t h at = record {
    prepared_data = λ i' n' eq. absurd (cc (eq));
    prepared_others = others_kept a (λ j ne k lt. refl);
  }
