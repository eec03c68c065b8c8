-- ===== src/Data/Copies.antt =====
-- The copies of a block between the pools.
use mmu.Prelude.{ℕ, pos, ◌≡◌, refl, ap, ◌∙◌, arith, true, false, ◌==◌}
use mmu.Types.{PagePtr, Result, ok, err, stuck, ptr}
use mmu.Exec.{◌>>=◌}
use mmu.Exec.Returns.{came, with_value, with_error}
use mmu.ChunkPool.{owner, raw_page}
use mmu.Runtime.{Runtime, Pool, pool_of}
use mmu.Paging.{acquire_page, copy_or_zero, sync_l1_to_l2, sync_l2_to_l1}
use mmu.Paging.Apart.{same_uses-IsApart}
use mmu.Paging.Pages.{content, Same, write_page-content, write_page-content_ne}
use mmu.Frame.{acquire_page-Frames}
use mmu.Frame.Pools.{acquire_page-Returns}
use mmu.Data.{Apart, by_pool}
use mmu.Data.Acquiring.{Acquires, acquire_page-Acquires}

-- The bytes of all pages are the same.
pub record Undisturbed (a b : Runtime) : Type 0 where
  pub quiet_apart : Apart b
  pub quiet_pages :
      (p : Pool) (j : ℕ)
      → Same a.config.block_size_bytes (content (pool_of b p) j) (content (pool_of a p) j)

-- Block `i` of the pool `to` has got the bytes of block `i` of the pool `from`.
pub record Synced (from to : Pool) (i : ℕ) (a b : Runtime) : Type 0 where
  pub synced_apart : Apart b
  pub copied :
      Same a.config.block_size_bytes (content (pool_of b to) i) (content (pool_of a from) i)
  pub same_from :
      (j : ℕ)
      → Same a.config.block_size_bytes (content (pool_of b from) j) (content (pool_of a from) j)
  pub same_to :
      (j : ℕ)
      → (i == j) ≡ false
      → Same a.config.block_size_bytes (content (pool_of b to) j) (content (pool_of a to) j)

-- What a copy has done, by its result.
abbrev pub Syncs : Pool → Pool → ℕ → Runtime → Result (Unit {0}) → Runtime → Type 0
Syncs from to i a (ok u) b = Synced from to i a b
Syncs from to i a (err e) b = Undisturbed a b
Syncs from to i a stuck b = false ≡ true

module _ (i : ℕ) (a b : Runtime) (q : PagePtr)
    (size : b.config.block_size_bytes ≡ a.config.block_size_bytes) where
  copied_to_l2 :
      Acquires Pool.l2_pool i a (ok q) b
      → Synced Pool.l1_pool Pool.l2_pool i a
          (copy_or_zero Pool.l1_pool Pool.l2_pool (owner b.l1_pool i) q b)
  copied_to_l2 h = record {
    synced_apart =
        by_pool _ (h.acquires_apart Pool.l1_pool)
          (same_uses-IsApart b.l2_pool _ (h.acquires_apart Pool.l2_pool) refl λ r. refl);
    copied = λ k lt.
        write_page-content b.l2_pool q b.config.block_size_bytes (content b.l1_pool i) i
          (h.acquired q refl) k (omega (arith, lt, size))
        ∙ h.acquires_pages Pool.l1_pool i k lt;
    same_from = λ j. h.acquires_pages Pool.l1_pool j;
    same_to = λ j ne k lt.
        ap (λ f. f k)
          (write_page-content_ne b.l2_pool q b.config.block_size_bytes (content b.l1_pool i) i
            (h.acquired q refl) j (h.acquires_apart Pool.l2_pool) ne)
        ∙ h.acquires_pages Pool.l2_pool j k lt;
  }

  copied_to_l1 :
      Acquires Pool.l1_pool i a (ok q) b
      → Synced Pool.l2_pool Pool.l1_pool i a
          (copy_or_zero Pool.l2_pool Pool.l1_pool (owner b.l2_pool i) q b)
  copied_to_l1 h = record {
    synced_apart =
        by_pool _ (same_uses-IsApart b.l1_pool _ (h.acquires_apart Pool.l1_pool) refl λ r. refl)
          (h.acquires_apart Pool.l2_pool);
    copied = λ k lt.
        write_page-content b.l1_pool q b.config.block_size_bytes (content b.l2_pool i) i
          (h.acquired q refl) k (omega (arith, lt, size))
        ∙ h.acquires_pages Pool.l2_pool i k lt;
    same_from = λ j. h.acquires_pages Pool.l2_pool j;
    same_to = λ j ne k lt.
        ap (λ f. f k)
          (write_page-content_ne b.l1_pool q b.config.block_size_bytes (content b.l2_pool i) i
            (h.acquired q refl) j (h.acquires_apart Pool.l1_pool) ne)
        ∙ h.acquires_pages Pool.l1_pool j k lt;
  }

-- The copies are followed by writes to the directory, which leave the pools alone.
same_pools :
    (from to : Pool) (i : ℕ) (a b c : Runtime)
    → ((p : Pool) → pool_of c p ≡ pool_of b p)
    → Synced from to i a b
    → Synced from to i a c
same_pools from to i a b c h s = record {
  synced_apart = λ p. rw (h p) (s.synced_apart p);
  copied = λ k lt. ap (λ x. content x i k) (h to) ∙ s.copied k lt;
  same_from = λ j k lt. ap (λ x. content x j k) (h from) ∙ s.same_from j k lt;
  same_to = λ j ne k lt. ap (λ x. content x j k) (h to) ∙ s.same_to j ne k lt;
}

module _ (i : ℕ) (rt : Runtime) (h : Apart rt) where
  acquired_size :
      (p : Pool)
      → (acquire_page p (pos i) ptr rt).1.config.block_size_bytes ≡ rt.config.block_size_bytes
  acquired_size p =
      ap (λ c. c.block_size_bytes) ((acquire_page-Frames p (pos i) ptr).at rt).same_config

  pub sync_l1_to_l2-Syncs :
      Syncs Pool.l1_pool Pool.l2_pool i rt (sync_l1_to_l2 (pos i) rt).0 (sync_l1_to_l2 (pos i) rt).1
  unfolding sync_l1_to_l2 ◌>>=◌ raw_page
  sync_l1_to_l2-Syncs =
      let m = acquire_page-Acquires Pool.l2_pool i rt h in
      let s = acquire_page Pool.l2_pool (pos i) ptr rt in
      elim (came s.0 ((acquire_page-Returns Pool.l2_pool (pos i) ptr).from rt)) [
        | with_error x e ↦
            rw e (record { quiet_apart = m.acquires_apart; quiet_pages = m.acquires_pages })
        | with_value q e ↦ rw e (
            same_pools Pool.l1_pool Pool.l2_pool i rt _ _ (by_pool _ refl refl)
              (copied_to_l2 i rt s.1 q (acquired_size Pool.l2_pool) (rw (← e) m)))
      ]

  pub sync_l2_to_l1-Syncs :
      Syncs Pool.l2_pool Pool.l1_pool i rt (sync_l2_to_l1 (pos i) rt).0 (sync_l2_to_l1 (pos i) rt).1
  unfolding sync_l2_to_l1 ◌>>=◌ raw_page
  sync_l2_to_l1-Syncs =
      let m = acquire_page-Acquires Pool.l1_pool i rt h in
      let s = acquire_page Pool.l1_pool (pos i) ptr rt in
      elim (came s.0 ((acquire_page-Returns Pool.l1_pool (pos i) ptr).from rt)) [
        | with_error x e ↦
            rw e (record { quiet_apart = m.acquires_apart; quiet_pages = m.acquires_pages })
        | with_value q e ↦ rw e (
            same_pools Pool.l2_pool Pool.l1_pool i rt _ _ (by_pool _ refl refl)
              (copied_to_l1 i rt s.1 q (acquired_size Pool.l1_pool) (rw (← e) m)))
      ]
