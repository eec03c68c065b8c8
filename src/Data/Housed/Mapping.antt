-- ===== src/Data/Housed/Mapping.antt =====
-- Mapping and unmapping a block, from the routing on, keep every block housed.
use mmu.Prelude.{
  ℕ, ℤ, pos, negsuc, ◌≡◌, refl, sym, subst, ap, ◌∙◌, true, Option, get_elem?, Bool-cases,
  Option-cases, inl, inr, ◌==◌,
}
use mmu.Types.{Result, ok, ptr, PagePtr, PhysicalRoute, MappedBlock, Error, internal}
use mmu.Exec.{Exec, modify, gets, pure, or_same, ◌>>=◌, ◌>>◌}
use mmu.Exec.Keeps.{Keeps, keeps_rules}
use mmu.Exec.Returns.{came, with_value, with_error}
use mmu.BlockDirectory
use mmu.BlockManager
use mmu.BlockDirectory.{BlockDirectory}
use mmu.BlockDirectory.Writes.{get-at}
use mmu.Runtime.{Runtime, Pool, directory, touch_block}
use mmu.Paging.{acquire_page, sync_l1_to_l2}
use mmu.Frame.{acquire_page-Frames}
use mmu.Frame.Pools.{acquire_page-Still, acquire_page-Returns}
use mmu.Residency.{is_resident, ensure_resident_in_l1}
use mmu.Residency.Promotion.{IsBounded, Brings}
use mmu.Residency.Bounds.{ensure_resident_in_l1-Brings}
use mmu.Api.Mapping.{direct, map_routed, unmap_routed}
use mmu.Data.{by_pool}
use mmu.Data.Acquiring.{Acquires, acquire_page-Acquires}
use mmu.Data.Housed.{
  entry, tier_of, IsHoused, StaysHoused, StaysHoused-order, all_but-IsHoused, fields-StaysHoused,
}
use mmu.Data.Housed.Writes.{write_meta-StaysHoused, touch_block-StaysHoused, dirty-StaysHoused}
use mmu.Data.Housed.Paging.{taken-IsHoused, sync-StaysHoused}
use mmu.Data.Housed.Promotion.{continue-IsHoused}
use mmu.Data.Housed.Ensuring.{ensure_resident_in_l1-StaysHoused}

-- A resident block gets an L1 page.
module _ (i : ℕ) (rt : Runtime) where
  abbrev taken : Result PagePtr × Runtime
  taken = acquire_page Pool.l1_pool (pos i) ptr rt

  given-StaysHoused :
      (q : PagePtr)
      → Acquires Pool.l1_pool i rt (ok q) taken.1
      → is_resident (entry rt i) ≡ true
      → StaysHoused rt taken.1
  given-StaysHoused q t resident g =
      all_but-IsHoused i rt taken.1 t.acquires_apart
        (ap (λ c. c.block_size_bytes)
          ((acquire_page-Frames Pool.l1_pool (pos i) ptr).at rt).same_config)
        (λ j ne. record {
          same_resident = ap (λ d. is_resident (get_elem? d.metas j)) same;
          same_tier = ap (λ d. tier_of (get_elem? d.metas j)) same;
          same_l1 = t.acquires_beside j ne;
          same_l2 = t.acquires_pages Pool.l2_pool j;
        })
        (record {
          at_l1 = λ r. ap (λ d. tier_of (get_elem? d.metas i)) same ∙ (g.houses i).at_l1 resident;
          blank = λ r o. absurd (cc (o, t.acquired q refl));
          no_page =
              λ r. absurd (cc (r, ap (λ d. is_resident (get_elem? d.metas i)) same, resident));
        })
        g
    where
      same : taken.1.block_directory ≡ rt.block_directory
      same = ((acquire_page-Still Pool.l1_pool (pos i) ptr).at rt).same_directory

  acquired-StaysHoused : is_resident (entry rt i) ≡ true → StaysHoused rt taken.1
  acquired-StaysHoused resident g =
      elim (came taken.0 ((acquire_page-Returns Pool.l1_pool (pos i) ptr).from rt)) [
        | with_error x e ↦
            taken-IsHoused Pool.l1_pool i rt taken.1 taken.0 did
              ((acquire_page-Still Pool.l1_pool (pos i) ptr).at rt)
              ((acquire_page-Frames Pool.l1_pool (pos i) ptr).at rt) (did.acquires_failed x e) g
        | with_value q e ↦
            given-StaysHoused q
              (subst (λ (x : Result PagePtr). Acquires Pool.l1_pool i rt x taken.1) e did) resident
              g
      ]
    where
      did : Acquires Pool.l1_pool i rt taken.0 taken.1
      did = acquire_page-Acquires Pool.l1_pool i rt g.apart

-- A call on the directory.
direct-StaysHoused :
    (f : BlockDirectory → Option BlockDirectory) (e : Error)
    → ((rt : Runtime) → StaysHoused rt (directory f rt))
    → Keeps StaysHoused (direct f e)
direct-StaysHoused f e k = record {
  at = λ rt g. elim (Option-cases (f rt.block_directory)) [
    | inl n ↦ rw (n, direct) g
    | inr (d, s) ↦
        rw (s, direct)
          (fields-StaysHoused (directory f rt) (record rt { block_directory = d }) refl
            (by_pool _ refl refl) (sym (ap (or_same rt.block_directory) s)) (k rt g))
  ];
}

increment-StaysHoused :
    (id : ℤ) (e : Error)
    → Keeps StaysHoused (direct (λ d. BlockDirectory.increment_pin_count d id) e)
unfolding BlockDirectory.increment_pin_count
increment-StaysHoused id e =
    direct-StaysHoused (λ d. BlockDirectory.increment_pin_count d id) e
      λ rt.
        write_meta-StaysHoused id _ rt
          (record { keeps_resident = λ m. refl; keeps_tier = λ m. refl })

unpinned-StaysHoused :
    (id : ℤ) (rt : Runtime)
    → StaysHoused rt (directory (λ d. BlockDirectory.decrement_pin_count d id) rt)
unfolding BlockDirectory.decrement_pin_count
unpinned-StaysHoused id rt g = elim (Option-cases (BlockDirectory.get rt.block_directory id)) [
  | inl e ↦ rw e g
  | inr (m, e) ↦ elim (Bool-cases (m.pin_count == 0)) [
    | inl z ↦ rw (e, z) g
    | inr z ↦
        rw (e, z)
          (write_meta-StaysHoused id _ rt
            (record { keeps_resident = λ m. refl; keeps_tier = λ m. refl }) g)
  ]
]

decrement-StaysHoused :
    (id : ℤ) (e : Error)
    → Keeps StaysHoused (direct (λ d. BlockDirectory.decrement_pin_count d id) e)
decrement-StaysHoused id e =
    direct-StaysHoused (λ d. BlockDirectory.decrement_pin_count d id) e (unpinned-StaysHoused id)

-- A map after the block has its page in L1.
abbrev pinned : ℤ → ℕ → ℕ → PagePtr → Exec Runtime MappedBlock
pinned id lb map_flags l1_page = do
  direct (λ d. BlockDirectory.increment_pin_count d id) internal
  modify (touch_block id)
  size_bytes ← gets (λ rt. rt.config.block_size_bytes)
  pure (record {
    host_ptr = l1_page;
    size_bytes = size_bytes;
    physical_block_id = id;
    logical_block_id = lb;
    map_flags = map_flags;
  })

pinned-StaysHoused :
    (id : ℤ) (lb map_flags : ℕ) (q : PagePtr) → Keeps StaysHoused (pinned id lb map_flags q)
pinned-StaysHoused id lb map_flags q =
    search (keeps_rules, StaysHoused-order, increment-StaysHoused, touch_block-StaysHoused) depth 20

-- A map after the block has come to L1.
handed-IsHoused :
    (i lb map_flags : ℕ) (rt : Runtime)
    → is_resident (entry rt i) ≡ true
    → IsHoused rt
    → IsHoused ((acquire_page Pool.l1_pool (pos i) ptr >>= pinned (pos i) lb map_flags) rt).1
unfolding ◌>>=◌
handed-IsHoused i lb map_flags rt resident g =
    let given = acquired-StaysHoused i rt resident g in
    continue-IsHoused (taken i rt).1 (taken i rt).0 (pinned (pos i) lb map_flags) given
      λ q e. (pinned-StaysHoused (pos i) lb map_flags q).at (taken i rt).1 given

mapped-IsHoused :
    (id : ℤ) (lb map_flags : ℕ) (rt : Runtime)
    → IsBounded rt
    → IsHoused rt
    → IsHoused
        ((ensure_resident_in_l1 id >>= λ _.
            acquire_page Pool.l1_pool id ptr >>= pinned id lb map_flags)
          rt).1
unfolding ◌>>=◌ ensure_resident_in_l1 BlockManager.is_valid
mapped-IsHoused (negsuc n) lb map_flags rt b g = g
mapped-IsHoused (pos i) lb map_flags rt b g =
    continue-IsHoused s.1 s.0
      (λ _. acquire_page Pool.l1_pool (pos i) ptr >>= pinned (pos i) lb map_flags) there
      λ u e.
        handed-IsHoused i lb map_flags s.1
          (ap is_resident (sym (get-at s.1.block_directory i)) ∙ brings.arrives e) there
  where
    s : Result (Unit {0}) × Runtime
    s = ensure_resident_in_l1 (pos i) rt

    there : IsHoused s.1
    there = (ensure_resident_in_l1-StaysHoused (pos i)).at rt g

    brings : Brings (pos i) rt s.0 s.1
    brings = ensure_resident_in_l1-Brings (pos i) rt b

pub map_routed-IsHoused :
    (lb map_flags : ℕ) (r : PhysicalRoute) (rt : Runtime)
    → IsBounded rt
    → StaysHoused rt (map_routed lb map_flags r rt).1
unfolding map_routed
map_routed-IsHoused lb map_flags r rt b g = mapped-IsHoused r.physical_block_id lb map_flags rt b g

sync_l1_to_l2-StaysHoused : (id : ℤ) → Keeps StaysHoused (sync_l1_to_l2 id)
unfolding sync_l1_to_l2 ◌>>=◌ acquire_page
sync_l1_to_l2-StaysHoused (pos i) = record { at = sync-StaysHoused i }
sync_l1_to_l2-StaysHoused (negsuc n) = record { at = λ rt g. g }

pub unmap_routed-StaysHoused :
    (id : ℤ) (map_flags : ℕ) → Keeps StaysHoused (unmap_routed id map_flags)
unfolding unmap_routed
unmap_routed-StaysHoused id map_flags =
    search
      (
        keeps_rules, StaysHoused-order, sync_l1_to_l2-StaysHoused, decrement-StaysHoused,
        dirty-StaysHoused, touch_block-StaysHoused,
      )
      depth 40
