-- ===== src/Data/Acquiring.antt =====
-- What taking a page of a pool does to the pages and to the bytes of the blocks.
use mmu.Prelude.{
  ℕ, pos, ◌≡◌, refl, ap, ◌∙◌, arith, leb, ◌&&◌, true, false, List, [], ◌∷◌, none, some, get_elem?,
  get_elem?-some, get_elem?-set_self, get_elem?-set_ne, ◌==◌, length, ltb, Option-cases, Bool-cases,
  inl, inr, lt_of_get_elem?,
}
use mmu.Types.{PagePtr, Result, ok, err, Error, ptr, invalid_argument, out_of_memory}
use mmu.Exec.{◌>>=◌}
use mmu.Exec.Returns.{came, with_value, with_error}
use mmu.ChunkPool.{ChunkPool, owner, slot_of}
use mmu.Runtime.{Runtime, Pool, pool_of}
use mmu.Paging.{refill, commit_page, pop_free, take_page, acquire_page, is_empty, bounded_l2}
use mmu.Paging.Apart.{take_page-IsApart, slot_owner, owner-slot}
use mmu.Paging.Pages.{content, Same, content-owner, take_page-content, owner-set_ne}
use mmu.Frame.Pools.{refill-Returns}
use mmu.Data.{Apart, by_pool, Grows, refill-Grows}

-- What a call that takes a page of `pool` for block `i` has done, by its result. No block's bytes
-- have changed.
pub record Acquires (pool : Pool) (i : ℕ) (a : Runtime) (r : Result PagePtr) (b : Runtime)
    : Type 0 where
  pub acquires_apart : Apart b
  pub acquires_pages :
      (p : Pool) (j : ℕ)
      → Same a.config.block_size_bytes (content (pool_of b p) j) (content (pool_of a p) j)
  pub acquired : (q : PagePtr) → r ≡ ok q → owner (pool_of b pool) i ≡ some q
  pub acquires_owner :
      (p : Pool) (j : ℕ) (q : PagePtr)
      → owner (pool_of a p) j ≡ some q
      → owner (pool_of b p) j ≡ some q
  pub acquires_beside :
      (j : ℕ) → (i == j) ≡ false → owner (pool_of b pool) j ≡ owner (pool_of a pool) j
  pub acquires_failed :
      (e : Error) → r ≡ err e → (j : ℕ) → owner (pool_of b pool) j ≡ owner (pool_of a pool) j
  pub acquires_l2 : pool ≡ Pool.l2_pool → (j : ℕ) → owner b.l1_pool j ≡ owner a.l1_pool j

no_page : (pool : Pool) (i : ℕ) (a : Runtime) (e : Error) → Apart a → Acquires pool i a (err e) a
no_page pool i a e h = record {
  acquires_apart = h;
  acquires_pages = λ p j b lt. refl;
  acquired = λ q eq. absurd (cc);
  acquires_owner = λ p j q e. e;
  acquires_beside = λ j ne. refl;
  acquires_failed = λ x eq j. refl;
  acquires_l2 = λ eq j. refl;
}

after_growth :
    (pool : Pool) (i : ℕ) (a b : Runtime) (r : Result PagePtr) (c : Runtime)
    → Grows a b
    → Acquires pool i b r c
    → Acquires pool i a r c
unfolding owner
after_growth pool i a b r c g h = record {
  acquires_apart = h.acquires_apart;
  acquires_pages = λ p j k lt.
      h.acquires_pages p j k (omega (arith, lt, ap (λ x. x.block_size_bytes) g.grown_config))
      ∙ ap (λ f. f k)
          (content-owner (pool_of a p) (pool_of b p) j (rw (g.grown_owners p) refl)
            (λ q e. rw (g.grown_memory p) refl));
  acquired = h.acquired;
  acquires_owner = λ p j q e. h.acquires_owner p j q (same_owner p j ∙ e);
  acquires_beside = λ j ne. h.acquires_beside j ne ∙ same_owner pool j;
  acquires_failed = λ x eq j. h.acquires_failed x eq j ∙ same_owner pool j;
  acquires_l2 = λ eq j. h.acquires_l2 eq j ∙ same_owner Pool.l1_pool j;
}
  where
    same_owner : (p : Pool) (j : ℕ) → owner (pool_of b p) j ≡ owner (pool_of a p) j
    same_owner p j = ap (λ os. slot_of (get_elem? os j)) (g.grown_owners p)

-- A block that has a page keeps it when another takes one.
take_page-owner :
    (p : ChunkPool) (i size : ℕ) (q : PagePtr) (rest : List PagePtr)
    → get_elem? p.owner_pages i ≡ some none
    → (j : ℕ) (r : PagePtr) → owner p j ≡ some r
    → owner (take_page i size p q rest) j ≡ some r
take_page-owner p i size q rest slot j r own =
    let at = owner-slot p j r own in
    let ne : (i == j) ≡ false = elim (Bool-cases (i == j)) [
      | inr f ↦ f
      | inl e ↦
          let same : i ≡ j = ground (arith, e) in
          let here : get_elem? p.owner_pages j ≡ some none = rw (← same) slot in
          absurd (cc (here, at))
    ] in
    slot_owner (take_page i size p q rest) j (some r)
      (get_elem?-set_ne p.owner_pages i j (some q) (ground (arith, ne)) ∙ at)

pop_free-Acquires :
    (pool : Pool) (i : ℕ) (free : List PagePtr) (rt : Runtime)
    → Apart rt
    → (pool_of rt pool).free_blocks ≡ free
    → get_elem? (pool_of rt pool).owner_pages i ≡ some none
    → Acquires pool i rt (pop_free pool i free rt).0 (pop_free pool i free rt).1
unfolding pop_free
pop_free-Acquires pool i [] rt a free slot = no_page pool i rt out_of_memory a
pop_free-Acquires Pool.l1_pool i (q ∷ rest) rt a free slot = record {
  acquires_apart =
      by_pool _
        (take_page-IsApart rt.l1_pool i rt.config.block_size_bytes q rest (a Pool.l1_pool) free
          slot)
        (a Pool.l2_pool);
  acquires_pages =
      by_pool _
        (λ j.
          take_page-content rt.l1_pool i j rt.config.block_size_bytes q rest (a Pool.l1_pool) free
            slot)
        (λ j b lt. refl);
  acquired = λ r e.
      slot_owner (take_page i rt.config.block_size_bytes rt.l1_pool q rest) i (some r) (
        get_elem?-set_self rt.l1_pool.owner_pages i (some q)
          (lt_of_get_elem? rt.l1_pool.owner_pages i slot)
        ∙ cc (e));
  acquires_owner =
      by_pool _ (λ j r. take_page-owner rt.l1_pool i rt.config.block_size_bytes q rest slot j r)
        (λ j r own. own);
  acquires_beside = λ j ne.
      owner-set_ne rt.l1_pool (take_page i rt.config.block_size_bytes rt.l1_pool q rest) i j
        (some q) refl ne;
  acquires_failed = λ x eq. absurd (cc (eq));
  acquires_l2 = λ eq. absurd (cc (eq));
}
pop_free-Acquires Pool.l2_pool i (q ∷ rest) rt a free slot = record {
  acquires_apart =
      by_pool _ (a Pool.l1_pool) (
        take_page-IsApart rt.l2_pool i rt.config.block_size_bytes q rest (a Pool.l2_pool) free
          slot);
  acquires_pages =
      by_pool _ (λ j b lt. refl)
        (λ j.
          take_page-content rt.l2_pool i j rt.config.block_size_bytes q rest (a Pool.l2_pool) free
            slot);
  acquired = λ r e.
      slot_owner (take_page i rt.config.block_size_bytes rt.l2_pool q rest) i (some r) (
        get_elem?-set_self rt.l2_pool.owner_pages i (some q)
          (lt_of_get_elem? rt.l2_pool.owner_pages i slot)
        ∙ cc (e));
  acquires_owner =
      by_pool _ (λ j r own. own)
        (λ j r. take_page-owner rt.l2_pool i rt.config.block_size_bytes q rest slot j r);
  acquires_beside = λ j ne.
      owner-set_ne rt.l2_pool (take_page i rt.config.block_size_bytes rt.l2_pool q rest) i j
        (some q) refl ne;
  acquires_failed = λ x eq. absurd (cc (eq));
  acquires_l2 = λ eq j. refl;
}

commit_page-Acquires :
    (pool : Pool) (i : ℕ) (rt : Runtime)
    → Apart rt
    → get_elem? (pool_of rt pool).owner_pages i ≡ some none
    → Acquires pool i rt (commit_page pool i rt).0 (commit_page pool i rt).1
unfolding commit_page ◌>>=◌
commit_page-Acquires pool i rt a slot =
    elim (Bool-cases
      (bounded_l2 pool rt && leb rt.config.l2_block_count (pool_of rt pool).committed_pages)) [
        | inl t ↦ rw t (no_page pool i rt out_of_memory a)
        | inr f ↦ elim (Bool-cases (is_empty (pool_of rt pool).free_blocks)) [
          | inr d ↦
              rw (f, d) (pop_free-Acquires pool i (pool_of rt pool).free_blocks rt a refl slot)
          | inl d ↦
              let g = (refill-Grows pool).at rt in
              elim (came (refill pool rt).0 ((refill-Returns pool).from rt)) [
                | with_error x e ↦
                    rw (f, d, e)
                      (after_growth pool i rt _ (err x) _ g
                        (no_page pool i _ x (λ p. g.grown_apart p (a p))))
                | with_value u e ↦
                    rw (f, d, e)
                      (after_growth pool i rt _ _ _ g (
                        pop_free-Acquires pool i _ (refill pool rt).1 (λ p. g.grown_apart p (a p))
                          refl (ap (λ os. get_elem? os i) (g.grown_owners pool) ∙ slot)))
              ]
        ]
      ]

get_elem?-out :
    {A : Type 0} (xs : List A) (i : ℕ) → get_elem? xs i ≡ none → ltb i (length xs) ≡ false
get_elem?-out xs i h = elim (Bool-cases (ltb i (length xs))) [
  | inr f ↦ f
  | inl t ↦ let (x, e) = get_elem?-some xs i (ground (arith, t)) in absurd (cc (h, e))
]

pub acquire_page-Acquires :
    (pool : Pool) (i : ℕ) (rt : Runtime)
    → Apart rt
    → Acquires pool i rt (acquire_page pool (pos i) ptr rt).0 (acquire_page pool (pos i) ptr rt).1
unfolding acquire_page ◌>>=◌ owner
acquire_page-Acquires pool i rt a =
    elim (Option-cases (get_elem? (pool_of rt pool).owner_pages i)) [
      | inl e ↦
          let out : ltb i (length (pool_of rt pool).owner_pages) ≡ false =
            get_elem?-out (pool_of rt pool).owner_pages i e in
          rw out (no_page pool i rt invalid_argument a)
      | inr (none, e) ↦
          let t : ltb i (length (pool_of rt pool).owner_pages) ≡ true =
            ground (arith, lt_of_get_elem? (pool_of rt pool).owner_pages i e) in
          rw (t, e) (commit_page-Acquires pool i rt a e)
      | inr (some q, e) ↦
          let t : ltb i (length (pool_of rt pool).owner_pages) ≡ true =
            ground (arith, lt_of_get_elem? (pool_of rt pool).owner_pages i e) in
          rw (t, e)
            (record {
              acquires_apart = a;
              acquires_pages = λ p j b lt. refl;
              acquired = λ r eq. slot_owner (pool_of rt pool) i (some r) (e ∙ cc (eq));
              acquires_owner = λ p j r own. own;
              acquires_beside = λ j ne. refl;
              acquires_failed = λ x eq j. refl;
              acquires_l2 = λ eq j. refl;
            })
    ]
