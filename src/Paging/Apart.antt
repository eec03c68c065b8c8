-- ===== src/Paging/Apart.antt =====
-- No page of a pool is used twice: neither by two blocks, nor by a block and the free list.
use mmu.Prelude.{
  ℕ, zero, suc, ◌+◌, ◌≤◌, ◌≡◌, refl, ap, ◌∙◌, arith, Bool, true, false, ◌&&◌, List, [], ◌∷◌, Option,
  none, some, length, length-append, get_elem?, set, tally, tally-set, to_nat, ltb, leb, ◌==◌,
  replicate, Option-cases, Bool-cases, inl, inr, lt_of_get_elem?, get_elem?-set_ne, pos,
}
use mmu.Types.{PagePtr}
use mmu.ChunkPool.{ChunkPool, init, owner, same_ptr, release_page}
use mmu.Paging.{push_blocks, grow, take_page}

abbrev pub holds : PagePtr → Option PagePtr → Bool
holds q none = false
holds q (some r) = same_ptr q r

-- How often the page `q` is used.
abbrev pub uses : ChunkPool → PagePtr → ℕ
uses p q = tally (holds q) p.owner_pages + tally (same_ptr q) p.free_blocks

pub record IsApart (p : ChunkPool) : Type 0 where
  pub once : (q : PagePtr) → uses p q ≤ 1
  pub allocated : (q : PagePtr) → length p.chunks ≤ q.chunk → uses p q ≡ 0

pub tally-at :
    {A : Type 0} (t : A → Bool) (xs : List A) (i : ℕ) (a : A)
    → get_elem? xs i ≡ some a
    → to_nat (t a) ≤ tally t xs
tally-at t [] i a h = absurd (cc)
tally-at t (x ∷ xs) zero a h = ground arith
tally-at t (x ∷ xs) (suc i) a h = omega (arith, tally-at t xs i a h)

tally-replicate-none : (q : PagePtr) (n : ℕ) → tally (holds q) (replicate n none) ≡ 0
tally-replicate-none q zero = refl
tally-replicate-none q (suc n) = omega (arith, tally-replicate-none q n)

pub init-IsApart : (n : ℕ) → IsApart (init n)
unfolding init
init-IsApart n = record {
  once = λ q. omega (arith, tally-replicate-none q n);
  allocated = λ q h. omega (arith, tally-replicate-none q n);
}

-- A slot that moves between the owners and the free list is used as often as before.
pub same_uses-IsApart :
    (p p' : ChunkPool)
    → IsApart p
    → length p'.chunks ≡ length p.chunks
    → ((q : PagePtr) → uses p' q ≡ uses p q)
    → IsApart p'
same_uses-IsApart p p' a c u = record {
  once = λ q. omega (arith, a.once q, u q);
  allocated = λ q h. omega (arith, a.allocated q, u q, c);
}

pub owner-slot :
    (p : ChunkPool) (i : ℕ) (q : PagePtr)
    → owner p i ≡ some q
    → get_elem? p.owner_pages i ≡ some (some q)
unfolding owner
owner-slot p i q h = elim (Option-cases (get_elem? p.owner_pages i)) [
  | inl e ↦ absurd (ground (arith, e, h))
  | inr (s, e) ↦ ground (arith, e, h)
]

pub take_page-IsApart :
    (p : ChunkPool) (i size : ℕ) (q : PagePtr) (rest : List PagePtr)
    → IsApart p
    → p.free_blocks ≡ q ∷ rest
    → get_elem? p.owner_pages i ≡ some none
    → IsApart (take_page i size p q rest)
take_page-IsApart p i size q rest a free slot =
    same_uses-IsApart p (take_page i size p q rest) a refl λ r.
      let moved = tally-set (holds r) p.owner_pages i (some q) none slot in
      let head : tally (same_ptr r) p.free_blocks
          ≡ to_nat (same_ptr r q) + tally (same_ptr r) rest =
        ap (tally (same_ptr r)) free in
      omega (arith, moved, head)

pub slot_owner :
    (p : ChunkPool) (i : ℕ) (s : Option PagePtr)
    → get_elem? p.owner_pages i ≡ some s
    → owner p i ≡ s
unfolding owner
slot_owner p i s h = ground (arith, h)

pub release_page-IsApart : (p : ChunkPool) (i : ℕ) → IsApart p → IsApart (release_page p (pos i))
unfolding release_page owner
release_page-IsApart p i a = elim (Option-cases (get_elem? p.owner_pages i)) [
  | inl e ↦ elim (Bool-cases (ltb i (length p.owner_pages))) [
    | inl t ↦ rw (t, e) a
    | inr f ↦ rw f a
  ]
  | inr (none, e) ↦
      let t : ltb i (length p.owner_pages) ≡ true =
        ground (arith, lt_of_get_elem? p.owner_pages i e) in
      rw (t, e) a
  | inr (some q, e) ↦
      let t : ltb i (length p.owner_pages) ≡ true =
        ground (arith, lt_of_get_elem? p.owner_pages i e) in
      rw (t, e)
        (same_uses-IsApart p _ a refl
          λ r. omega (arith, tally-set (holds r) p.owner_pages i none (some q) e))
]

-- The blocks of a new chunk, each once.
tally-push_blocks :
    (q : PagePtr) (c i n : ℕ) (free : List PagePtr)
    → tally (same_ptr q) (push_blocks c i n free)
      ≡ tally (same_ptr q) free + to_nat (q.chunk == c && leb i q.block && ltb q.block (i + n))
tally-push_blocks q c i zero free = ground arith
tally-push_blocks q c i (suc n) free =
    let ih = tally-push_blocks q c (suc i) n (record { chunk = c; block = i } ∷ free) in
    ground (arith, ih)

pub grow-IsApart : (p : ChunkPool) (n : ℕ) → IsApart p → IsApart (grow p n)
unfolding grow
grow-IsApart p n a = record {
  once = λ q.
      ground
        (arith, tally-push_blocks q (length p.chunks) 0 n p.free_blocks, a.once q, a.allocated q);
  allocated = λ q h.
      let longer = length-append p.chunks (n ∷ []) in
      ground (
        arith,
        tally-push_blocks q (length p.chunks) 0 n p.free_blocks,
        a.allocated q (omega (arith, longer, h)),
        longer,
      );
}

-- Two slots do not hold one page.
pub owners_differ :
    (p : ChunkPool) (i j : ℕ) (q r : PagePtr)
    → IsApart p
    → (i == j) ≡ false
    → owner p i ≡ some q
    → owner p j ≡ some r
    → same_ptr q r ≡ false
owners_differ p i j q r a ne hi hj =
    let at_i = owner-slot p i q hi in
    let at_j = owner-slot p j r hj in
    let without = tally-set (holds q) p.owner_pages i none (some q) at_i in
    let still =
      tally-at (holds q) (set p.owner_pages i none) j (some r)
        (get_elem?-set_ne p.owner_pages i j none (ground arith) ∙ at_j) in
    let most = a.once q in
    let self : same_ptr q q ≡ true = ground arith in ground (arith, without, still, most, self)

-- A slot does not hold a free page.
pub free_differs :
    (p : ChunkPool) (j : ℕ) (q r : PagePtr) (rest : List PagePtr)
    → IsApart p
    → p.free_blocks ≡ q ∷ rest
    → owner p j ≡ some r
    → same_ptr q r ≡ false
free_differs p j q r rest a free hj =
    let owned = tally-at (holds q) p.owner_pages j (some r) (owner-slot p j r hj) in
    let head : tally (same_ptr q) p.free_blocks ≡ to_nat (same_ptr q q) + tally (same_ptr q) rest =
      ap (tally (same_ptr q)) free in
    let most = a.once q in
    let self : same_ptr q q ≡ true = ground arith in ground (arith, owned, head, most, self)
