-- ===== src/Data/Reading.antt =====
-- What a client reads through the pointer of a mapped block.
use mmu.Prelude.{
  ℕ, ◌<◌, pos, ◌≡◌, refl, sym, ap, ◌∙◌, subst, arith, true, some, get_elem?, Option-cases, inl, inr,
}
use mmu.Types.{Result, ok, ptr, internal, PagePtr, PhysicalRoute, MappedBlock}
use mmu.Exec.{Exec, modify, gets, pure, or_same, ◌>>=◌, ◌>>◌}
use mmu.Exec.Returns.{came, with_value, with_error}
use mmu.BlockDirectory
use mmu.BlockDirectory.{BlockDirectory}
use mmu.ChunkPool.{owner, bytes_or_zero}
use mmu.Runtime.{Runtime, Pool, pool_of, touch_block, block_meta_for}
use mmu.Paging.{acquire_page}
use mmu.Paging.Pages.{content, Same}
use mmu.Frame.{Frames}
use mmu.Frame.Pools.{acquire_page-Returns}
use mmu.Frame.Residency.{ensure_resident_in_l1-Frames}
use mmu.Residency.{ensure_resident_in_l1, is_resident}
use mmu.Residency.Flags.{flags_of}
use mmu.Residency.Calm.{flags, acquire_page-Calm, touch_block-Calm}
use mmu.Residency.Reclaim.{get-flag}
use mmu.Residency.Promotion.{IsBounded, Brings}
use mmu.Residency.Bounds.{ensure_resident_in_l1-Brings}
use mmu.Api.Mapping.{direct, map_routed}
use mmu.Settled.Paging.{increment-flags}
use mmu.Data.{Apart}
use mmu.Data.Acquiring.{Acquires, acquire_page-Acquires}
use mmu.Data.Moves.{home, block_data, InUse}
use mmu.Data.Promotion.{Intact, ensure_resident_in_l1-Intact}

-- A map of block `i`: the bytes of the blocks in use are the same, and a pointer that is handed out
-- is the L1 page of block `i` and points to its bytes.
pub record Reads (i : ℕ) (a : Runtime) (r : Result MappedBlock) (b : Runtime) : Type 0 where
  pub reads_intact : Intact a b
  pub reads_page :
      (m : MappedBlock)
      → r ≡ ok m
      → (m.physical_block_id ≡ pos i) × (owner b.l1_pool i ≡ some m.host_ptr)
  pub reads_data :
      (m : MappedBlock)
      → r ≡ ok m
      → InUse a i
      → Same a.config.block_size_bytes (b.l1_pool.memory m.host_ptr) (block_data a i)

-- Pages that are taken and flags that stay.
taken-Intact :
    (i : ℕ) (a b c : Runtime) (r : Result PagePtr)
    → Acquires Pool.l1_pool i a r b
    → ((p : Pool) → pool_of c p ≡ pool_of b p)
    → flags c ≡ flags a
    → Intact a c
taken-Intact i a b c r t pools same = record {
  intact_apart = λ p. rw (pools p) (t.acquires_apart p);
  intact_data = λ j u k lt.
      ap (λ fs. content (pool_of c (home (get_elem? fs j))) j k) same
      ∙ ap (λ q. content q j k) (pools (home (get_elem? (flags a) j)))
      ∙ t.acquires_pages (home (get_elem? (flags a) j)) j k lt;
}

resident_page :
    (i : ℕ) (rt : Runtime) (q : PagePtr)
    → get_elem? (flags rt) i ≡ some true
    → owner rt.l1_pool i ≡ some q
    → block_data rt i ≡ rt.l1_pool.memory q
unfolding bytes_or_zero
resident_page i rt q res at = rw (res, at) refl

-- The part of a map after the block has come to L1.
abbrev hand_out : ℕ → ℕ → ℕ → Exec Runtime MappedBlock
hand_out i lb map_flags = do
  l1_page ← acquire_page Pool.l1_pool (pos i) ptr
  direct (λ d. BlockDirectory.increment_pin_count d (pos i)) internal
  modify (touch_block (pos i))
  size_bytes ← gets (λ rt. rt.config.block_size_bytes)
  pure (record {
    host_ptr = l1_page;
    size_bytes = size_bytes;
    physical_block_id = pos i;
    logical_block_id = lb;
    map_flags = map_flags;
  })

module _ (i lb map_flags : ℕ) (rt : Runtime) where
  pinned-Reads :
      (q : PagePtr) (size : ℕ) (b : Runtime) (d : BlockDirectory)
      → Acquires Pool.l1_pool i rt (ok q) b
      → flags b ≡ flags rt
      → flags_of d.metas ≡ flags b
      → get_elem? (flags rt) i ≡ some true
      → Reads i rt
          (ok (record {
            host_ptr = q;
            size_bytes = size;
            physical_block_id = pos i;
            logical_block_id = lb;
            map_flags = map_flags;
          }))
          (touch_block (pos i) (record b { block_directory = d }))
  unfolding touch_block
  pinned-Reads q size b d t calm pinned res = record {
    reads_intact = intact;
    reads_page = λ m eq.
        let here : m.host_ptr ≡ q = cc (eq) in
        let block : m.physical_block_id ≡ pos i = cc (eq) in
        (
          block,
          ap (λ p. owner p i) (after_pools Pool.l1_pool) ∙ t.acquired q refl ∙ ap some (sym here),
        );
    reads_data = λ m eq u k lt.
        let here : m.host_ptr ≡ q = cc (eq) in
        ap (λ x. b.l1_pool.memory x k) here
        ∙ sym (
            ap (λ f. f k)
              (resident_page i after q (ap (λ fs. get_elem? fs i) same ∙ res) (t.acquired q refl)))
        ∙ intact.intact_data i u k lt;
  }
    where
      after : Runtime
      after = touch_block (pos i) (record b { block_directory = d })

      same : flags after ≡ flags rt
      same =
          (touch_block-Calm (pos i) (record b { block_directory = d })).same_flags ∙ pinned ∙ calm

      after_pools : (p : Pool) → pool_of after p ≡ pool_of b p
      after_pools Pool.l1_pool = refl
      after_pools Pool.l2_pool = refl

      intact : Intact rt after
      intact = taken-Intact i rt b after (ok q) t after_pools same

module _ (i lb map_flags : ℕ) (rt : Runtime) (h : Apart rt) where
  hand_out-Reads :
      get_elem? (flags rt) i ≡ some true
      → Reads i rt (hand_out i lb map_flags rt).0 (hand_out i lb map_flags rt).1
  unfolding ◌>>=◌
  hand_out-Reads res =
      elim (came taken.0 ((acquire_page-Returns Pool.l1_pool (pos i) ptr).from rt)) [
        | with_error x e ↦ rw e (record {
          reads_intact = taken-Intact i rt taken.1 taken.1 taken.0 did (λ p. refl) calm;
          reads_page = λ m eq. absurd (cc (eq));
          reads_data = λ m eq. absurd (cc (eq));
        })
        | with_value q e ↦
            elim (Option-cases
              (BlockDirectory.increment_pin_count taken.1.block_directory (pos i))) [
                | inl n ↦
                    rw (e, n, direct)
                      (record {
                        reads_intact =
                            taken-Intact i rt taken.1 taken.1 taken.0 did (λ p. refl) calm;
                        reads_page = λ m eq. absurd (cc (eq));
                        reads_data = λ m eq. absurd (cc (eq));
                      })
                | inr (d, n) ↦
                    rw (e, n, direct)
                      (pinned-Reads i lb map_flags rt q _ taken.1 d
                        (subst (λ r. Acquires Pool.l1_pool i rt r taken.1) e did) calm
                        (sym (ap (λ o. flags_of (or_same taken.1.block_directory o).metas) n)
                          ∙ increment-flags (pos i) taken.1.block_directory)
                        res)
              ]
      ]
    where
      taken : Result PagePtr × Runtime
      taken = acquire_page Pool.l1_pool (pos i) ptr rt

      did : Acquires Pool.l1_pool i rt taken.0 taken.1
      did = acquire_page-Acquires Pool.l1_pool i rt h

      calm : flags taken.1 ≡ flags rt
      calm = ((acquire_page-Calm Pool.l1_pool (pos i)).at rt).same_flags

-- The bytes through a call that keeps the manager and the configuration.
after-Reads :
    (i : ℕ) (a b c : Runtime) (r : Result MappedBlock)
    → Frames a b
    → Intact a b
    → Reads i b r c
    → Reads i a r c
after-Reads i a b c r f s h = record {
  reads_intact = record {
    intact_apart = h.reads_intact.intact_apart;
    intact_data = λ j u k lt.
        h.reads_intact.intact_data j (rw f.same_allocator u) k (size k lt) ∙ s.intact_data j u k lt;
  };
  reads_page = h.reads_page;
  reads_data = λ m eq u k lt.
      h.reads_data m eq (rw f.same_allocator u) k (size k lt) ∙ s.intact_data i u k lt;
}
  where
    size : (k : ℕ) → k < a.config.block_size_bytes → k < b.config.block_size_bytes
    size k lt = omega (arith, lt, ap (λ x. x.block_size_bytes) f.same_config)

resident_flag :
    (i : ℕ) (rt : Runtime)
    → is_resident (block_meta_for (pos i) rt) ≡ true
    → get_elem? (flags rt) i ≡ some true
resident_flag i rt h = elim (Option-cases (block_meta_for (pos i) rt)) [
  | inl e ↦ absurd (ground (arith, h, e))
  | inr (m, e) ↦ ground (arith, h, e, get-flag rt i)
]

-- If no page of either pool is used twice, and the count of resident blocks is right and at most
-- the limit, then mapping a block, from its route on, whatever the result is, keeps the bytes of
-- every block that has references. On success the pointer that is handed out is the L1 page of the
-- block, and if the block has references it points to its bytes, wherever they stood before.
pub map_routed-Reads :
    (i lb map_flags : ℕ) (route : PhysicalRoute) (rt : Runtime)
    → Apart rt
    → IsBounded rt
    → route.physical_block_id ≡ pos i
    → Reads i rt (map_routed lb map_flags route rt).0 (map_routed lb map_flags route rt).1
unfolding map_routed ◌>>=◌
map_routed-Reads i lb map_flags route rt h b routed = elim (came s.0 brings.brings_back) [
  | with_error x e ↦
      rw (routed, e)
        (record {
          reads_intact = intact;
          reads_page = λ m eq. absurd (cc (eq));
          reads_data = λ m eq. absurd (cc (eq));
        })
  | with_value u e ↦
      rw (routed, e)
        (after-Reads i rt s.1 _ _ ((ensure_resident_in_l1-Frames (pos i)).at rt) intact (
          hand_out-Reads i lb map_flags s.1 intact.intact_apart
            (resident_flag i s.1 (brings.arrives e))))
]
  where
    s : Result (Unit {0}) × Runtime
    s = ensure_resident_in_l1 (pos i) rt

    brings : Brings (pos i) rt s.0 s.1
    brings = ensure_resident_in_l1-Brings (pos i) rt b

    intact : Intact rt s.1
    intact = ensure_resident_in_l1-Intact i rt h
