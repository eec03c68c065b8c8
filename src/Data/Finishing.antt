-- ===== src/Data/Finishing.antt =====
-- The end of a clone, once the bytes are in the L2 page of the destination.
use mmu.Prelude.{
  ℕ, ◌<◌, pos, ◌≡◌, sym, ap, ◌∙◌, subst, arith, true, false, some, get_elem?, ◌==◌, inl, inr,
  if◌then◌else◌,
}
use mmu.Types.{Result, ok, err, stuck, ptr, PagePtr}
use mmu.Exec.{Exec, modify, gets, ◌>>=◌}
use mmu.Exec.Returns.{came, with_value, with_error}
use mmu.ChunkPool.{owner, release_page}
use mmu.Runtime.{Runtime, Pool, pool_of, block_meta_for}
use mmu.Paging.{acquire_page, copy_or_zero}
use mmu.Paging.Apart.{release_page-IsApart}
use mmu.Paging.Pages.{content, Same, release_page-content}
use mmu.Frame.{acquire_page-Frames}
use mmu.Frame.Pools.{acquire_page-Returns}
use mmu.Residency.{is_resident}
use mmu.Residency.Calm.{flags, acquire_page-Calm}
use mmu.Cow.{copy_to_l1}
use mmu.Data.{Apart, by_pool}
use mmu.Data.Acquiring.{Acquires, acquire_page-Acquires}
use mmu.Data.Moves.{home, block_data}
use mmu.Data.Source.{flag_cases}
use mmu.Data.Filling.{Filled, copied_to}

-- What the clone of block `i` into block `n` has done.
pub record Cloned (i n : ℕ) (a b : Runtime) : Type 0 where
  pub cloned_apart : Apart b
  pub cloned_data : Same a.config.block_size_bytes (block_data b n) (block_data a i)
  pub cloned_others :
      (j : ℕ) → (n == j) ≡ false → Same a.config.block_size_bytes (block_data b j) (block_data a j)

-- A clone that fails has changed no block but the new one.
pub record Spoiled (n : ℕ) (a b : Runtime) : Type 0 where
  pub spoiled_apart : Apart b
  pub spoiled_others :
      (j : ℕ) → (n == j) ≡ false → Same a.config.block_size_bytes (block_data b j) (block_data a j)

abbrev pub Clones : ℕ → ℕ → Runtime → Result (Unit {0}) → Runtime → Type 0
Clones i n a (ok u) b = Cloned i n a b
Clones i n a (err e) b = Spoiled n a b
Clones i n a stuck b = false ≡ true

-- The pages of the blocks other than `n` are the same, and so are the flags.
pub record Others (n : ℕ) (a b : Runtime) : Type 0 where
  pub others_apart : Apart b
  pub others_flags : flags b ≡ flags a
  pub others_same :
      (p : Pool) (j : ℕ)
      → (n == j) ≡ false
      → Same a.config.block_size_bytes (content (pool_of b p) j) (content (pool_of a p) j)

pub Others-Spoiled : (n : ℕ) (a b : Runtime) → Others n a b → Spoiled n a b
Others-Spoiled n a b o = record {
  spoiled_apart = o.others_apart;
  spoiled_others = λ j ne k lt.
      ap (λ fs. content (pool_of b (home (get_elem? fs j))) j k) o.others_flags
      ∙ o.others_same (home (get_elem? (flags a) j)) j ne k lt;
}

Others-Cloned :
    (i n : ℕ) (a b : Runtime) (p : Pool)
    → Others n a b
    → home (get_elem? (flags a) n) ≡ p
    → Same a.config.block_size_bytes (content (pool_of b p) n) (block_data a i)
    → Cloned i n a b
Others-Cloned i n a b p o at c = record {
  cloned_apart = o.others_apart;
  cloned_data = λ k lt.
      ap (λ fs. content (pool_of b (home (get_elem? fs n))) n k) o.others_flags
      ∙ ap (λ x. content (pool_of b x) n k) at
      ∙ c k lt;
  cloned_others = (Others-Spoiled n a b o).spoiled_others;
}

-- The end of a clone, for a destination that is not resident.
released-Others :
    (n : ℕ) (a b : Runtime)
    → Others n a b
    → Others n a (record b { l1_pool = release_page b.l1_pool (pos n) })
released-Others n a b o = record {
  others_apart =
      by_pool _ (release_page-IsApart b.l1_pool n (o.others_apart Pool.l1_pool))
        (o.others_apart Pool.l2_pool);
  others_flags = o.others_flags;
  others_same =
      by_pool _
        (λ j ne k lt.
          ap (λ f. f k) (release_page-content b.l1_pool n j ne)
          ∙ o.others_same Pool.l1_pool j ne k lt)
        (o.others_same Pool.l2_pool);
}

-- The end of a clone, with the bytes in the L2 page `q` of the destination.
abbrev pub finish : ℕ → PagePtr → Exec Runtime (Unit {0})
finish n q = do
  dst_meta ← gets (block_meta_for (pos n))
  if is_resident dst_meta
      then copy_to_l1 (pos n) q
      else modify (λ rt. record rt { l1_pool = release_page rt.l1_pool (pos n) })

module _ (i n : ℕ) (a d : Runtime) (o : Others n a d)
    (size : d.config.block_size_bytes ≡ a.config.block_size_bytes) where
  narrower : (k : ℕ) → k < a.config.block_size_bytes → k < d.config.block_size_bytes
  narrower k lt = omega (arith, lt, size)

  Others-after :
      (e : Runtime)
      → Apart e
      → flags e ≡ flags d
      → ((p : Pool) (j : ℕ)
          → (n == j) ≡ false
          → Same d.config.block_size_bytes (content (pool_of e p) j) (content (pool_of d p) j))
      → Others n a e
  Others-after e apart same pages = record {
    others_apart = apart;
    others_flags = same ∙ o.others_flags;
    others_same = λ p j ne k lt. pages p j ne k (narrower k lt) ∙ o.others_same p j ne k lt;
  }

  -- A destination that is resident gets the bytes in L1 too.
  copy_to_l1-Clones :
      (q : PagePtr)
      → owner d.l2_pool n ≡ some q
      → get_elem? (flags d) n ≡ some true
      → Same a.config.block_size_bytes (content d.l2_pool n) (block_data a i)
      → Clones i n a (copy_to_l1 (pos n) q d).0 (copy_to_l1 (pos n) q d).1
  unfolding ◌>>=◌
  copy_to_l1-Clones q at flag c =
      elim (came taken.0 ((acquire_page-Returns Pool.l1_pool (pos n) ptr).from d)) [
        | with_error x e ↦ rw e (
            Others-Spoiled n a taken.1
              (Others-after taken.1 did.acquires_apart calm (λ p j ne. did.acquires_pages p j)))
        | with_value r e ↦ rw e (
            let f =
              filled r
                (subst (λ (x : Result PagePtr). Acquires Pool.l1_pool n d x taken.1) e did) in
            Others-Cloned i n a _ Pool.l1_pool (Others-after _ f.filled_apart calm f.filled_same)
              (ap home (ap (λ fs. get_elem? fs n) (sym o.others_flags) ∙ flag))
              (λ k lt. f.filled k (narrower k lt) ∙ c k lt))
      ]
    where
      taken : Result PagePtr × Runtime
      taken = acquire_page Pool.l1_pool (pos n) ptr d

      did : Acquires Pool.l1_pool n d taken.0 taken.1
      did = acquire_page-Acquires Pool.l1_pool n d o.others_apart

      calm : flags taken.1 ≡ flags d
      calm = ((acquire_page-Calm Pool.l1_pool (pos n)).at d).same_flags

      taken_size : taken.1.config.block_size_bytes ≡ d.config.block_size_bytes
      taken_size =
          ap (λ x. x.block_size_bytes)
            ((acquire_page-Frames Pool.l1_pool (pos n) ptr).at d).same_config

      filled :
          (r : PagePtr)
          → Acquires Pool.l1_pool n d (ok r) taken.1
          → Filled Pool.l1_pool n r
              (content d.l2_pool n)
              d
              (copy_or_zero Pool.l2_pool Pool.l1_pool (some q) r taken.1)
      filled r h =
          subst
            (λ s.
              Filled Pool.l1_pool n r (content d.l2_pool n) d
                (copy_or_zero Pool.l2_pool Pool.l1_pool s r taken.1))
            at (copied_to n n r d taken.1 taken_size Pool.l1_pool Pool.l2_pool h)

  pub finish-Clones :
      (q : PagePtr)
      → owner d.l2_pool n ≡ some q
      → Same a.config.block_size_bytes (content d.l2_pool n) (block_data a i)
      → Clones i n a (finish n q d).0 (finish n q d).1
  unfolding ◌>>=◌
  finish-Clones q at c = elim (flag_cases n d) [
    | inl (t, flag) ↦ rw t (copy_to_l1-Clones q at flag c)
    | inr (f, flag) ↦ rw f (
        Others-Cloned i n a _ Pool.l2_pool (released-Others n a d o)
          (ap (λ fs. home (get_elem? fs n)) (sym o.others_flags) ∙ flag) c)
  ]
