-- ===== src/Data/Housed/Vacant.antt =====
-- What is done to a block that is not resident, clones included, keeps every block housed.
use mmu.Prelude.{
  ℕ, ℤ, pos, negsuc, ◌≡◌, refl, subst, ap, ◌∙◌, arith, true, false, not, ◌||◌, Option, some,
  get_elem?, Bool-cases, inl, inr, ◌==◌,
}
use mmu.Types.{Tier, Result, ok, ptr, PagePtr}
use mmu.Exec.{◌>>=◌}
use mmu.Exec.Returns.{came, with_value, with_error}
use mmu.BlockManager
use mmu.BlockDirectory
use mmu.BlockDirectory.{BlockDirectory, BlockMeta, fresh_meta}
use mmu.BlockDirectory.Writes.{get-at, initialize-at, written}
use mmu.ChunkPool.{owner, release_page}
use mmu.Runtime.{Runtime, Pool, pool_of, directory, block_meta_for}
use mmu.Paging.{acquire_page, copy_or_zero}
use mmu.Paging.Apart.{release_page-IsApart}
use mmu.Paging.Pages.{content, release_page-owner_ne, release_page-owner}
use mmu.Frame.{Frames, acquire_page-Frames}
use mmu.Frame.Pools.{Still, acquire_page-Still, acquire_page-Returns}
use mmu.Residency.{is_resident}
use mmu.Residency.Calm.{flags, acquire_page-Calm, slot-Calm, backing-Calm}
use mmu.Residency.Reclaim.{get-flag}
use mmu.Cow.{is_none, clone_block_data_for_cow}
use mmu.Data.{by_pool}
use mmu.Data.Acquiring.{Acquires, acquire_page-Acquires}
use mmu.Data.Source.{cow_source-page}
use mmu.Data.Filling.{copied_to}
use mmu.Data.Finishing.{finish}
use mmu.Data.Fresh.{opened-other}
use mmu.Data.Sharing.{directory-StaysApart}
use mmu.Data.Housed.{entry, tier_of, IsHoused, StaysHoused, all_but-IsHoused, out-House}
use mmu.Data.Housed.Writes.{
  written-out, written-resident, write_meta-entry_self, write_meta-entry_ne, slot-StaysHoused,
  backing-StaysHoused,
}
use mmu.Data.Housed.Paging.{taken-IsHoused, Filled-IsHoused}

pub flag-out :
    (i : ℕ) (rt : Runtime) → get_elem? (flags rt) i ≡ some false → is_resident (entry rt i) ≡ false
flag-out i rt h = ground (arith, get-flag rt i, get-at rt.block_directory i, h)

-- A change of the entry of a block that is not resident, before and after.
vacant-StaysHoused :
    (i : ℕ) (f : BlockDirectory → Option BlockDirectory) (rt : Runtime)
    → ((j : ℕ) → (i == j) ≡ false → entry (directory f rt) j ≡ entry rt j)
    → is_resident (entry rt i) ≡ false
    → is_resident (entry (directory f rt) i) ≡ false
    → StaysHoused rt (directory f rt)
vacant-StaysHoused i f rt others before after g =
    all_but-IsHoused i rt (directory f rt) (directory-StaysApart f rt g.apart) refl
      (λ j ne. record {
        same_resident = ap is_resident (others j ne);
        same_tier = ap tier_of (others j ne);
        same_l1 = refl;
        same_l2 = λ k lt. refl;
      })
      (out-House _ _ _ _ after ((g.houses i).no_page before)) g

pub released-StaysHoused :
    (i : ℕ) (rt : Runtime)
    → is_resident (entry rt i) ≡ false
    → StaysHoused rt (record rt { l1_pool = release_page rt.l1_pool (pos i) })
released-StaysHoused i rt out g =
    all_but-IsHoused i rt (record rt { l1_pool = release_page rt.l1_pool (pos i) })
      (by_pool _ (release_page-IsApart rt.l1_pool i (g.apart Pool.l1_pool)) (g.apart Pool.l2_pool))
      refl
      (λ j ne. record {
        same_resident = refl;
        same_tier = refl;
        same_l1 = release_page-owner_ne rt.l1_pool i j ne;
        same_l2 = λ k lt. refl;
      })
      (out-House _ _ _ _ out (release_page-owner rt.l1_pool i)) g

module _ (n : ℕ) (rt : Runtime) (out : get_elem? (flags rt) n ≡ some false) where
  pub initialize-StaysHoused :
      StaysHoused rt (directory (λ d. BlockDirectory.initialize_fresh_block d (pos n)) rt)
  initialize-StaysHoused =
      vacant-StaysHoused n (λ d. BlockDirectory.initialize_fresh_block d (pos n)) rt
        (λ j ne. opened-other n j ne rt) (flag-out n rt out)
        (ap is_resident at ∙ written-out (λ _. fresh_meta) (entry rt n) (λ m. refl))
    where
      at :
          entry (directory (λ d. BlockDirectory.initialize_fresh_block d (pos n)) rt) n
          ≡ written (λ _. fresh_meta) (entry rt n)
      at = ground (arith, initialize-at rt.block_directory n n)

  pub tier-StaysHoused :
      (t : Tier) → StaysHoused rt (directory (λ d. BlockDirectory.set_tier d (pos n) t) rt)
  unfolding BlockDirectory.set_tier
  tier-StaysHoused t =
      vacant-StaysHoused n (λ d. BlockDirectory.set_tier d (pos n) t) rt
        (λ j ne. write_meta-entry_ne n (λ meta. record meta { tier = t }) rt j ne)
        (flag-out n rt out)
        (ap is_resident (write_meta-entry_self n (λ meta. record meta { tier = t }) rt)
          ∙ written-resident (λ meta. record meta { tier = t }) (entry rt n) (λ m. refl)
          ∙ flag-out n rt out)

  abbrev taken : Result PagePtr × Runtime
  taken = acquire_page Pool.l2_pool (pos n) ptr rt

  frame : Frames rt taken.1
  frame = (acquire_page-Frames Pool.l2_pool (pos n) ptr).at rt

  still : Still rt taken.1
  still = (acquire_page-Still Pool.l2_pool (pos n) ptr).at rt

  -- The state after the copy of block `i`, and after what the directory notes of it.
  abbrev copied : Pool → ℕ → PagePtr → Runtime
  copied p i q = copy_or_zero p Pool.l2_pool (owner (pool_of rt p) i) q taken.1

  abbrev backed : Pool → ℕ → PagePtr → Runtime
  backed p i q = directory (λ d. BlockDirectory.set_has_l2_backing d (pos n) true) (copied p i q)

  abbrev noted : Pool → ℕ → PagePtr → Runtime
  noted p i q = directory (λ d. BlockDirectory.set_l2_slot_id d (pos n) (pos n)) (backed p i q)

  noted-flag : (p : Pool) (i : ℕ) (q : PagePtr) → get_elem? (flags (noted p i q)) n ≡ some false
  noted-flag p i q =
      ap (λ fs. get_elem? fs n)
        ((slot-Calm (pos n) (pos n) (backed p i q)).same_flags
          ∙ (backing-Calm (pos n) true (copied p i q)).same_flags
          ∙ ((acquire_page-Calm Pool.l2_pool (pos n)).at rt).same_flags)
      ∙ out

  noted-IsHoused :
      (p : Pool) (i : ℕ) (q : PagePtr)
      → Acquires Pool.l2_pool n rt (ok q) taken.1
      → IsHoused rt
      → IsHoused (noted p i q)
  noted-IsHoused p i q t g = slot-StaysHoused (pos n) (pos n) (backed p i q) (
      backing-StaysHoused (pos n) true (copied p i q) (
        Filled-IsHoused n q (content (pool_of rt p) i) rt taken.1 (copied p i q) t still frame refl
          refl refl
          (copied_to n i q rt taken.1 (ap (λ c. c.block_size_bytes) frame.same_config) Pool.l2_pool
            p t)
          (λ r. absurd (cc (r, flag-out n rt out))) g))

  finished-IsHoused :
      (b : Runtime) (q : PagePtr)
      → get_elem? (flags b) n ≡ some false
      → IsHoused b
      → IsHoused (finish n q b).1
  unfolding ◌>>=◌
  finished-IsHoused b q vacant g =
      let f : is_resident (block_meta_for (pos n) b) ≡ false =
        ap is_resident (get-at b.block_directory n) ∙ flag-out n b vacant in
      rw f (released-StaysHoused n b (flag-out n b vacant) g)

  cloned-StaysHoused :
      (i : ℕ) (t : Tier) → StaysHoused rt (clone_block_data_for_cow (pos i) t (pos n) rt).1
  unfolding clone_block_data_for_cow ◌>>=◌
  cloned-StaysHoused i t g =
      elim (Bool-cases (
        not (BlockManager.is_valid rt.l1_allocator (pos i))
        || not (BlockManager.is_valid rt.l1_allocator (pos n)))) [
          | inl x ↦ rw x g
          | inr v ↦
              elim (Bool-cases
                (is_none (block_meta_for (pos i) rt) || is_none (block_meta_for (pos n) rt))) [
                  | inl x ↦ rw (v, x) g
                  | inr w ↦
                      elim (came taken.0
                        ((acquire_page-Returns Pool.l2_pool (pos n) ptr).from rt)) [
                          | with_error x e ↦
                              rw (v, w, e)
                                (taken-IsHoused Pool.l2_pool n rt taken.1 taken.0 did still frame
                                  (did.acquires_l2 refl) g)
                          | with_value q e ↦
                              let (p, from) = cow_source-page i t rt in
                              rw (v, w, e, from)
                                (finished-IsHoused (noted p i q) q (noted-flag p i q) (
                                  noted-IsHoused p i q
                                    (subst
                                      (λ (x : Result PagePtr). Acquires Pool.l2_pool n rt x taken.1)
                                      e did)
                                    g))
                        ]
                ]
        ]
    where
      did : Acquires Pool.l2_pool n rt taken.0 taken.1
      did = acquire_page-Acquires Pool.l2_pool n rt g.apart

  -- A clone into a block that is not resident.
  pub clone-StaysHoused :
      (src : ℤ) (t : Tier) → StaysHoused rt (clone_block_data_for_cow src t (pos n) rt).1
  unfolding clone_block_data_for_cow ◌>>=◌ BlockManager.is_valid
  clone-StaysHoused (pos i) t g = cloned-StaysHoused i t g
  clone-StaysHoused (negsuc i) t g = g
