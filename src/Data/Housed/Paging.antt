-- ===== src/Data/Housed/Paging.antt =====
-- Taking pages, the copies between the pools, and eviction keep every block housed.
use mmu.Prelude.{ℕ, ◌<◌, pos, ◌≡◌, refl, sym, ap, ◌∙◌, subst, arith, true, Option, none, get_elem?}
use mmu.Types.{Result, ok, ptr, PagePtr}
use mmu.Exec.{◌>>=◌}
use mmu.Exec.Returns.{came, with_value, with_error}
use mmu.BlockDirectory.{BlockMeta}
use mmu.ChunkPool.{owner, zero_page, Page, raw_page, bytes_or_zero}
use mmu.Runtime.{Runtime, Pool}
use mmu.Paging.{acquire_page, copy_or_zero, sync_l1_to_l2}
use mmu.Paging.Pages.{content, Same}
use mmu.Frame.{Frames, acquire_page-Frames}
use mmu.Frame.Pools.{Still, acquire_page-Still, acquire_page-Returns}
use mmu.Residency.{is_resident}
use mmu.Data.Acquiring.{Acquires, acquire_page-Acquires}
use mmu.Data.Filling.{Filled, copied_to}
use mmu.Data.Housed.{entry, tier_of, HouseOf, IsHoused, StaysHoused, Alike-House, all_but-IsHoused}
use mmu.Data.Housed.Writes.{slot-StaysHoused, backing-StaysHoused}

-- A page is taken, and no block has got a page of L1.
pub taken-IsHoused :
    (p : Pool) (i : ℕ) (a b : Runtime) (r : Result PagePtr)
    → Acquires p i a r b
    → Still a b
    → Frames a b
    → ((j : ℕ) → owner b.l1_pool j ≡ owner a.l1_pool j)
    → StaysHoused a b
taken-IsHoused p i a b r t d f o g = record {
  apart = t.acquires_apart;
  houses = λ j.
      Alike-House j a b (ap (λ c. c.block_size_bytes) f.same_config)
        (record {
          same_resident = ap (λ x. is_resident (get_elem? x.metas j)) d.same_directory;
          same_tier = ap (λ x. tier_of (get_elem? x.metas j)) d.same_directory;
          same_l1 = o j;
          same_l2 = t.acquires_pages Pool.l2_pool j;
        })
        (g.houses j);
}

-- A page of L2 is taken for block `n` and filled, where that leaves block `n` housed.
pub Filled-IsHoused :
    (n : ℕ) (q : PagePtr) (bytes : Page) (a b c : Runtime)
    → Acquires Pool.l2_pool n a (ok q) b
    → Still a b
    → Frames a b
    → c.config ≡ b.config
    → c.block_directory ≡ b.block_directory
    → c.l1_pool ≡ b.l1_pool
    → Filled Pool.l2_pool n q bytes a c
    → (is_resident (entry a n) ≡ true
        → owner a.l1_pool n ≡ none
        → Same a.config.block_size_bytes bytes zero_page)
    → StaysHoused a c
Filled-IsHoused n q bytes a b c t d f same_config same_directory same_l1 w blank g =
    all_but-IsHoused n a c w.filled_apart size
      (λ j ne. record {
        same_resident = at j is_resident;
        same_tier = at j tier_of;
        same_l1 = own j;
        same_l2 = w.filled_same Pool.l2_pool j ne;
      })
      (record {
        at_l1 = λ r. at n tier_of ∙ here.at_l1 (sym (at n is_resident) ∙ r);
        blank = λ r o k lt.
            let lt' : k < a.config.block_size_bytes = omega (arith, lt, size) in
            w.filled k lt' ∙ blank (sym (at n is_resident) ∙ r) (sym (own n) ∙ o) k lt';
        no_page = λ r. own n ∙ here.no_page (sym (at n is_resident) ∙ r);
      })
      g
  where
    here : HouseOf a n
    here = g.houses n

    size : c.config.block_size_bytes ≡ a.config.block_size_bytes
    size = ap (λ x. x.block_size_bytes) (same_config ∙ f.same_config)

    at : {A : Type 0} (j : ℕ) (h : Option BlockMeta → A) → h (entry c j) ≡ h (entry a j)
    at j h = ap (λ x. h (get_elem? x.metas j)) (same_directory ∙ d.same_directory)

    own : (j : ℕ) → owner c.l1_pool j ≡ owner a.l1_pool j
    own j = ap (λ x. owner x j) same_l1 ∙ t.acquires_l2 refl j

pub sync-StaysHoused : (i : ℕ) (rt : Runtime) → StaysHoused rt (sync_l1_to_l2 (pos i) rt).1
unfolding sync_l1_to_l2 ◌>>=◌ raw_page bytes_or_zero
sync-StaysHoused i rt g =
    elim (came taken.0 ((acquire_page-Returns Pool.l2_pool (pos i) ptr).from rt)) [
      | with_error x e ↦ rw e (
          taken-IsHoused Pool.l2_pool i rt taken.1 taken.0 did still frame (did.acquires_l2 refl) g)
      | with_value q e ↦ rw e (
          slot-StaysHoused (pos i) (pos i) _ (
            backing-StaysHoused (pos i) true (copied q) (
              copied-IsHoused q
                (subst (λ (x : Result PagePtr). Acquires Pool.l2_pool i rt x taken.1) e did))))
    ]
  where
    taken : Result PagePtr × Runtime
    taken = acquire_page Pool.l2_pool (pos i) ptr rt

    did : Acquires Pool.l2_pool i rt taken.0 taken.1
    did = acquire_page-Acquires Pool.l2_pool i rt g.apart

    still : Still rt taken.1
    still = (acquire_page-Still Pool.l2_pool (pos i) ptr).at rt

    frame : Frames rt taken.1
    frame = (acquire_page-Frames Pool.l2_pool (pos i) ptr).at rt

    copied : PagePtr → Runtime
    copied q = copy_or_zero Pool.l1_pool Pool.l2_pool (owner taken.1.l1_pool i) q taken.1

    copied-IsHoused :
        (q : PagePtr) → Acquires Pool.l2_pool i rt (ok q) taken.1 → IsHoused (copied q)
    copied-IsHoused q t =
        Filled-IsHoused i q (content rt.l1_pool i) rt taken.1 (copied q) t still frame refl refl
          refl
          (subst
            (λ (o : Option PagePtr).
              Filled Pool.l2_pool i q (content rt.l1_pool i) rt
                (copy_or_zero Pool.l1_pool Pool.l2_pool o q taken.1))
            (sym (t.acquires_l2 refl i))
            (copied_to i i q rt taken.1 (ap (λ c. c.block_size_bytes) frame.same_config)
              Pool.l2_pool Pool.l1_pool t))
          (λ r o k lt. rw o refl) g
