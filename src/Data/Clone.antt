-- ===== src/Data/Clone.antt =====
-- Copy on write: the copy has the bytes of its source.
use mmu.Prelude.{ℕ, pos, ◌≡◌, refl, ap, ◌∙◌, subst, true, not, ◌||◌, Bool-cases, inl, inr}
use mmu.Types.{Tier, Result, ok, ptr, PagePtr}
use mmu.Exec.{◌>>=◌}
use mmu.Exec.Returns.{came, with_value, with_error}
use mmu.BlockManager
use mmu.BlockDirectory
use mmu.ChunkPool.{owner}
use mmu.Runtime.{Runtime, Pool, pool_of, directory, block_meta_for}
use mmu.Paging.{acquire_page, copy_or_zero}
use mmu.Paging.Pages.{content, Same}
use mmu.Frame.{acquire_page-Frames}
use mmu.Frame.Pools.{acquire_page-Returns}
use mmu.Residency.Calm.{flags, acquire_page-Calm, slot-Calm, backing-Calm}
use mmu.Cow.{Source, is_none, clone_block_data_for_cow}
use mmu.Data.{Apart}
use mmu.Data.Acquiring.{Acquires, acquire_page-Acquires}
use mmu.Data.Moves.{block_data}
use mmu.Data.Source.{IsHomed, source_bytes, cow_source-page, cow_source-home}
use mmu.Data.Filling.{Filled, copied_to}
use mmu.Data.Finishing.{Clones, Others, Others-Spoiled, finish, finish-Clones}

module _ (i n : ℕ) (tier : Tier) (rt : Runtime) (h : Apart rt) (at : IsHomed i tier rt) where
  unchanged : Others n rt rt
  unchanged = record { others_apart = h; others_flags = refl; others_same = λ p j ne k lt. refl }

  abbrev taken : Result PagePtr × Runtime
  taken = acquire_page Pool.l2_pool (pos n) ptr rt

  did : Acquires Pool.l2_pool n rt taken.0 taken.1
  did = acquire_page-Acquires Pool.l2_pool n rt h

  calm : flags taken.1 ≡ flags rt
  calm = ((acquire_page-Calm Pool.l2_pool (pos n)).at rt).same_flags

  same_size : taken.1.config.block_size_bytes ≡ rt.config.block_size_bytes
  same_size =
      ap (λ x. x.block_size_bytes)
        ((acquire_page-Frames Pool.l2_pool (pos n) ptr).at rt).same_config

  -- The state after the copy, and after what the directory notes of it.
  abbrev copied : Pool → PagePtr → Runtime
  copied p q = copy_or_zero p Pool.l2_pool (owner (pool_of rt p) i) q taken.1

  abbrev noted : Pool → PagePtr → Runtime
  noted p q =
      directory (λ d. BlockDirectory.set_l2_slot_id d (pos n) (pos n))
        (directory (λ d. BlockDirectory.set_has_l2_backing d (pos n) true) (copied p q))

  noted-flags : (p : Pool) (q : PagePtr) → flags (noted p q) ≡ flags rt
  noted-flags p q =
      (slot-Calm (pos n) (pos n)
        (directory (λ d. BlockDirectory.set_has_l2_backing d (pos n) true) (copied p q))).same_flags
      ∙ (backing-Calm (pos n) true (copied p q)).same_flags
      ∙ calm

  noted_pool : (p x : Pool) (q : PagePtr) → pool_of (noted p q) x ≡ pool_of (copied p q) x
  noted_pool p Pool.l1_pool q = refl
  noted_pool p Pool.l2_pool q = refl

  noted-Others :
      (p : Pool) (q : PagePtr)
      → Filled Pool.l2_pool n q (content (pool_of rt p) i) rt (copied p q)
      → Others n rt (noted p q)
  noted-Others p q f = record {
    others_apart = λ x. rw (noted_pool p x q) (f.filled_apart x);
    others_flags = noted-flags p q;
    others_same =
        λ x j ne k lt. ap (λ c. content c j k) (noted_pool p x q) ∙ f.filled_same x j ne k lt;
  }

  -- The bytes of the source, which stand in the pool `p`, go to the L2 page of the destination.
  noted-Clones :
      (p : Pool) (q : PagePtr)
      → Acquires Pool.l2_pool n rt (ok q) taken.1
      → Same rt.config.block_size_bytes (content (pool_of rt p) i) (block_data rt i)
      → Clones i n rt (finish n q (noted p q)).0 (finish n q (noted p q)).1
  noted-Clones p q t same =
      let f = copied_to n i q rt taken.1 same_size Pool.l2_pool p t in
      finish-Clones i n rt (noted p q) (noted-Others p q f) same_size q f.filled_owner
        (λ k lt. f.filled k lt ∙ same k lt)

  -- If no page of either pool is used twice, and the source has its bytes where its flag says
  -- (resident with tier L1, where a missing L1 page means a blank L2 page, or not resident and
  -- without an L1 page), then CloneBlockDataForCow returns. On success the new block has the bytes of
  -- the source, and every other block has the bytes it had; on an error the others keep theirs. In
  -- both cases again no page is used twice.
  pub clone_block_data_for_cow-Clones :
      Clones i n rt
        (clone_block_data_for_cow (pos i) tier (pos n) rt).0
        (clone_block_data_for_cow (pos i) tier (pos n) rt).1
  unfolding clone_block_data_for_cow ◌>>=◌
  clone_block_data_for_cow-Clones =
      elim (Bool-cases (
        not (BlockManager.is_valid rt.l1_allocator (pos i))
        || not (BlockManager.is_valid rt.l1_allocator (pos n)))) [
          | inl t ↦ rw t (Others-Spoiled n rt rt unchanged)
          | inr v ↦
              elim (Bool-cases
                (is_none (block_meta_for (pos i) rt) || is_none (block_meta_for (pos n) rt))) [
                  | inl t ↦ rw (v, t) (Others-Spoiled n rt rt unchanged)
                  | inr w ↦
                      elim (came taken.0
                        ((acquire_page-Returns Pool.l2_pool (pos n) ptr).from rt)) [
                          | with_error x e ↦
                              rw (v, w, e)
                                (Others-Spoiled n rt taken.1 (record {
                                  others_apart = did.acquires_apart;
                                  others_flags = calm;
                                  others_same = λ p j ne. did.acquires_pages p j;
                                }))
                          | with_value q e ↦
                              let (p, from) = cow_source-page i tier rt in
                              let bytes : Same rt.config.block_size_bytes (content (pool_of rt p) i)
                                  (block_data rt i) =
                                subst
                                  (λ (s : Source).
                                    Same rt.config.block_size_bytes (source_bytes rt s)
                                      (block_data rt i))
                                  from (cow_source-home i tier rt at) in
                              rw (v, w, e, from)
                                (noted-Clones p q
                                  (subst
                                    (λ (x : Result PagePtr). Acquires Pool.l2_pool n rt x taken.1) e
                                    did)
                                  bytes)
                        ]
                ]
        ]
