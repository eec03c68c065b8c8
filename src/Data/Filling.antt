-- ===== src/Data/Filling.antt =====
-- The copy of a page of one block onto a page of another.
use mmu.Prelude.{ℕ, ◌≡◌, refl, ap, ◌∙◌, arith, false, some, ◌==◌, Option-cases, inl, inr}
use mmu.Types.{ok, PagePtr}
use mmu.ChunkPool.{owner, bytes_or_zero, Page}
use mmu.Runtime.{Runtime, Pool, pool_of}
use mmu.Paging.{copy_or_zero}
use mmu.Paging.Apart.{same_uses-IsApart}
use mmu.Paging.Pages.{content, Same, write_page-content, write_page-content_ne, write_page-owner}
use mmu.Data.{Apart, by_pool}
use mmu.Data.Acquiring.{Acquires}

-- Page `q` of block `n` in the pool `to` has got some bytes.
pub record Filled (to : Pool) (n : ℕ) (q : PagePtr) (bytes : Page) (a b : Runtime) : Type 0 where
  pub filled_apart : Apart b
  pub filled_owner : owner (pool_of b to) n ≡ some q
  pub filled : Same a.config.block_size_bytes (content (pool_of b to) n) bytes
  pub filled_same :
      (p : Pool) (j : ℕ)
      → (n == j) ≡ false
      → Same a.config.block_size_bytes (content (pool_of b p) j) (content (pool_of a p) j)

-- The bytes behind a page of block `i` after a page is taken for block `n`.
behind :
    (to p : Pool) (n i : ℕ) (q : PagePtr) (a b : Runtime)
    → Acquires to n a (ok q) b
    → Same a.config.block_size_bytes
        (bytes_or_zero (pool_of b p) (owner (pool_of a p) i))
        (content (pool_of a p) i)
unfolding bytes_or_zero
behind to p n i q a b h k lt = elim (Option-cases (owner (pool_of a p) i)) [
  | inl e ↦ rw e refl
  | inr (r, e) ↦
      let same = h.acquires_pages p i k lt in
      let kept = h.acquires_owner p i r e in rw (e) (rw (kept, e) at same)
]

module _ (n i : ℕ) (q : PagePtr) (a b : Runtime)
    (size : b.config.block_size_bytes ≡ a.config.block_size_bytes) where
  abbrev bytes : Pool → Page
  bytes p = bytes_or_zero (pool_of b p) (owner (pool_of a p) i)

  pub copied_to :
      (to p : Pool)
      → Acquires to n a (ok q) b
      → Filled to n q (content (pool_of a p) i) a (copy_or_zero p to (owner (pool_of a p) i) q b)
  copied_to Pool.l2_pool p h = record {
    filled_apart =
        by_pool _ (h.acquires_apart Pool.l1_pool)
          (same_uses-IsApart b.l2_pool _ (h.acquires_apart Pool.l2_pool) refl λ r. refl);
    filled_owner =
        write_page-owner b.l2_pool q b.config.block_size_bytes (bytes p) n (h.acquired q refl) n
        ∙ h.acquired q refl;
    filled = λ k lt.
        write_page-content b.l2_pool q b.config.block_size_bytes (bytes p) n (h.acquired q refl) k
          (omega (arith, lt, size))
        ∙ behind Pool.l2_pool p n i q a b h k lt;
    filled_same =
        by_pool _ (λ j ne. h.acquires_pages Pool.l1_pool j)
          (λ j ne k lt.
            ap (λ f. f k)
              (write_page-content_ne b.l2_pool q b.config.block_size_bytes (bytes p) n
                (h.acquired q refl) j (h.acquires_apart Pool.l2_pool) ne)
            ∙ h.acquires_pages Pool.l2_pool j k lt);
  }
  copied_to Pool.l1_pool p h = record {
    filled_apart =
        by_pool _ (same_uses-IsApart b.l1_pool _ (h.acquires_apart Pool.l1_pool) refl λ r. refl)
          (h.acquires_apart Pool.l2_pool);
    filled_owner =
        write_page-owner b.l1_pool q b.config.block_size_bytes (bytes p) n (h.acquired q refl) n
        ∙ h.acquired q refl;
    filled = λ k lt.
        write_page-content b.l1_pool q b.config.block_size_bytes (bytes p) n (h.acquired q refl) k
          (omega (arith, lt, size))
        ∙ behind Pool.l1_pool p n i q a b h k lt;
    filled_same =
        by_pool _
          (λ j ne k lt.
            ap (λ f. f k)
              (write_page-content_ne b.l1_pool q b.config.block_size_bytes (bytes p) n
                (h.acquired q refl) j (h.acquires_apart Pool.l1_pool) ne)
            ∙ h.acquires_pages Pool.l1_pool j k lt)
          (λ j ne. h.acquires_pages Pool.l2_pool j);
  }
