-- ===== src/Data/Housed/Promotion.antt =====
-- Bringing a block to L1 keeps every block housed.
use mmu.Prelude.{
  ℕ, suc, pos, ◌≡◌, refl, sym, subst, ap, ◌∙◌, true, false, some, get_elem?, get_elem?-set_self,
  lt_of_get_elem?, ◌==◌, length,
}
use mmu.Types.{l1, Result, ok, err, stuck, ptr, PagePtr}
use mmu.Exec.{Exec, ◌>>=◌, continue}
use mmu.Exec.Returns.{came, with_value, with_error}
use mmu.BlockDirectory
use mmu.BlockDirectory.{BlockMeta}
use mmu.BlockDirectory.Writes.{get-at}
use mmu.ChunkPool.{owner, raw_page}
use mmu.Runtime.{Runtime, Pool, pool_of, directory, write_meta, touch_block}
use mmu.Paging.{acquire_page, copy_or_zero, sync_l2_to_l1}
use mmu.Paging.Pages.{content}
use mmu.Frame.{acquire_page-Frames}
use mmu.Frame.Pools.{acquire_page-Still, acquire_page-Returns}
use mmu.Residency.{is_resident, evict_while_full, promote, one_more}
use mmu.Residency.Calm.{flags, acquire_page-Calm, write_meta-Calm}
use mmu.Residency.Promotion.{settle, settle-flags, flag-is_resident}
use mmu.Data.{Apart}
use mmu.Data.Acquiring.{Acquires, acquire_page-Acquires}
use mmu.Data.Moves.{Preserved, evict_while_full-Preserves}
use mmu.Data.Promotion.{arrive}
use mmu.Data.Sharing.{copy_or_zero-StaysApart, directory-StaysApart}
use mmu.Data.Housed.{entry, tier_of, IsHoused, StaysHoused, all_but-IsHoused}
use mmu.Data.Housed.Writes.{
  written-l1, touch_block-entry_tier, touch_block-entry_ne, write_meta-entry_self,
  write_meta-entry_ne,
}
use mmu.Data.Housed.Paging.{taken-IsHoused}
use mmu.Data.Housed.Moves.{evict_while_full-StaysHoused}

-- The entry of block `i` after the end of a promotion.
settle-l1 : (i : ℕ) (rt : Runtime) → tier_of (entry (settle i rt) i) ≡ l1
settle-l1 i rt =
    touch_block-entry_tier i (one_more (write_meta (pos i) marked rt)) i
    ∙ ap tier_of (write_meta-entry_self i marked rt)
    ∙ written-l1 marked (entry rt i) (λ m. refl)
  where
    marked : BlockMeta → BlockMeta
    marked meta = record meta { resident_in_l1 = true; l1_frame_id = pos i; tier = l1 }

settle-other : (i j : ℕ) (rt : Runtime) → (i == j) ≡ false → entry (settle i rt) j ≡ entry rt j
settle-other i j rt ne =
    touch_block-entry_ne i (one_more (write_meta (pos i) marked rt)) j ne
    ∙ write_meta-entry_ne i marked rt j ne
  where
    marked : BlockMeta → BlockMeta
    marked meta = record meta { resident_in_l1 = true; l1_frame_id = pos i; tier = l1 }

settle-resident :
    (i : ℕ) (rt : Runtime)
    → get_elem? (flags rt) i ≡ some false
    → is_resident (entry (settle i rt) i) ≡ true
settle-resident i rt out =
    ap is_resident (sym (get-at (settle i rt).block_directory i))
    ∙ flag-is_resident (settle i rt) i (
        ap (λ fs. get_elem? fs i) (settle-flags i rt)
        ∙ get_elem?-set_self (flags rt) i true (lt_of_get_elem? (flags rt) i out))

settle-pool : (i : ℕ) (rt : Runtime) (p : Pool) → pool_of (settle i rt) p ≡ pool_of rt p
unfolding touch_block
settle-pool i rt Pool.l1_pool = refl
settle-pool i rt Pool.l2_pool = refl

settle-config : (i : ℕ) (rt : Runtime) → (settle i rt).config ≡ rt.config
unfolding touch_block
settle-config i rt = refl

module _ (i : ℕ) (rt : Runtime) (out : get_elem? (flags rt) i ≡ some false) where
  abbrev taken : Result PagePtr × Runtime
  taken = acquire_page Pool.l1_pool (pos i) ptr rt

  -- The state after the copy.
  abbrev brought : PagePtr → Runtime
  brought q =
      directory (λ d. BlockDirectory.set_l1_frame_id d (pos i) (pos i))
        (copy_or_zero Pool.l2_pool Pool.l1_pool (raw_page taken.1.l2_pool (pos i)) q taken.1)

  brought-flags : (q : PagePtr) → get_elem? (flags (brought q)) i ≡ some false
  unfolding BlockDirectory.set_l1_frame_id
  brought-flags q =
      ap (λ fs. get_elem? fs i)
        ((write_meta-Calm (pos i) _
            (copy_or_zero Pool.l2_pool Pool.l1_pool (raw_page taken.1.l2_pool (pos i)) q taken.1)
            (λ m. refl)).same_flags
          ∙ ((acquire_page-Calm Pool.l1_pool (pos i)).at rt).same_flags)
      ∙ out

  brought-other : (q : PagePtr) (j : ℕ) → (i == j) ≡ false → entry (brought q) j ≡ entry rt j
  unfolding BlockDirectory.set_l1_frame_id
  brought-other q j ne =
      write_meta-entry_ne i _
        (copy_or_zero Pool.l2_pool Pool.l1_pool (raw_page taken.1.l2_pool (pos i)) q taken.1) j ne
      ∙ ap (λ d. get_elem? d.metas j)
          ((acquire_page-Still Pool.l1_pool (pos i) ptr).at rt).same_directory

  brought-StaysHoused :
      (q : PagePtr)
      → Acquires Pool.l1_pool i rt (ok q) taken.1
      → StaysHoused rt (settle i (brought q))
  unfolding owner
  brought-StaysHoused q t g =
      all_but-IsHoused i rt (settle i (brought q)) (λ p. rw (settle-pool i (brought q) p) (apart p))
        (ap (λ c. c.block_size_bytes)
          (settle-config i (brought q)
            ∙ ((acquire_page-Frames Pool.l1_pool (pos i) ptr).at rt).same_config))
        (λ j ne.
          let at = settle-other i j (brought q) ne ∙ brought-other q j ne in
          record {
            same_resident = ap is_resident at;
            same_tier = ap tier_of at;
            same_l1 =
                ap (λ p. owner p j) (settle-pool i (brought q) Pool.l1_pool)
                ∙ t.acquires_beside j ne;
            same_l2 = λ k lt.
                ap (λ p. content p j k) (settle-pool i (brought q) Pool.l2_pool)
                ∙ t.acquires_pages Pool.l2_pool j k lt;
          })
        (record {
          at_l1 = λ r. settle-l1 i (brought q);
          blank = λ r o. absurd (cc (o, own));
          no_page = λ r. absurd (cc (r, settle-resident i (brought q) (brought-flags q)));
        })
        g
    where
      apart : Apart (brought q)
      apart =
          directory-StaysApart (λ d. BlockDirectory.set_l1_frame_id d (pos i) (pos i))
            (copy_or_zero Pool.l2_pool Pool.l1_pool (raw_page taken.1.l2_pool (pos i)) q taken.1)
            (copy_or_zero-StaysApart Pool.l2_pool Pool.l1_pool (raw_page taken.1.l2_pool (pos i)) q
              taken.1 t.acquires_apart)

      own : owner (settle i (brought q)).l1_pool i ≡ some q
      own = ap (λ p. owner p i) (settle-pool i (brought q) Pool.l1_pool) ∙ t.acquired q refl

  arrive-StaysHoused : StaysHoused rt (arrive i rt).1
  unfolding ◌>>=◌ sync_l2_to_l1
  arrive-StaysHoused g =
      elim (came taken.0 ((acquire_page-Returns Pool.l1_pool (pos i) ptr).from rt)) [
        | with_error x e ↦ rw e (
            taken-IsHoused Pool.l1_pool i rt taken.1 taken.0 did
              ((acquire_page-Still Pool.l1_pool (pos i) ptr).at rt)
              ((acquire_page-Frames Pool.l1_pool (pos i) ptr).at rt) (did.acquires_failed x e) g)
        | with_value q e ↦ rw e (
            brought-StaysHoused q
              (subst (λ (x : Result PagePtr). Acquires Pool.l1_pool i rt x taken.1) e did) g)
      ]
    where
      did : Acquires Pool.l1_pool i rt taken.0 taken.1
      did = acquire_page-Acquires Pool.l1_pool i rt g.apart

pub continue-IsHoused :
    {A B : Type 0} (b : Runtime) (r : Result A) (f : A → Exec Runtime B)
    → IsHoused b
    → ((x : A) → r ≡ ok x → IsHoused (f x b).1)
    → IsHoused (continue r f b).1
continue-IsHoused b (ok x) f p k = k x refl
continue-IsHoused b (err e) f p k = p
continue-IsHoused b stuck f p k = p

pub promote-StaysHoused :
    (i : ℕ) (rt : Runtime)
    → get_elem? (flags rt) i ≡ some false
    → StaysHoused rt (promote (pos i) rt).1
unfolding promote ◌>>=◌
promote-StaysHoused i rt out g =
    continue-IsHoused roomy _ (λ _. arrive i) room
      λ u e. arrive-StaysHoused i roomy (kept.kept_out i out) room
  where
    roomy : Runtime
    roomy = (evict_while_full (suc (length rt.block_directory.metas)) (pos i) rt).1

    room : IsHoused roomy
    room = (evict_while_full-StaysHoused (suc (length rt.block_directory.metas)) (pos i)).at rt g

    kept : Preserved rt roomy
    kept =
        (evict_while_full-Preserves (suc (length rt.block_directory.metas)) (pos i)).at rt g.apart
