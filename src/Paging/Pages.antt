-- ===== src/Paging/Pages.antt =====
-- The bytes that a pool holds for each block, all 0 for a block without a page.
use mmu.Prelude.{
  ℕ, ◌<◌, ◌-◌, pos, ◌≡◌, refl, ap, ◌∙◌, arith, true, false, List, ◌∷◌, Option, none, some, length,
  get_elem?, get_elem?-set_ne, get_elem?-set_self, set, ltb, ◌==◌, Option-cases, Bool-cases, inl,
  inr, lt_of_get_elem?, if◌then◌else◌,
}
use mmu.Types.{PagePtr}
use mmu.ChunkPool.{ChunkPool, Page, owner, release_page, bytes_or_zero, write_page, zero_page}
use mmu.Paging.{take_page}
use mmu.Paging.Apart.{IsApart, owners_differ, free_differs, slot_owner}

abbrev pub content : ChunkPool → ℕ → Page
content p i = bytes_or_zero p (owner p i)

-- The same first `size` bytes.
abbrev pub Same : ℕ → Page → Page → Type 0
Same size f g = (b : ℕ) → b < size → f b ≡ g b

pub content-owner :
    (p p' : ChunkPool) (i : ℕ)
    → owner p' i ≡ owner p i
    → ((q : PagePtr) → owner p i ≡ some q → p'.memory q ≡ p.memory q)
    → content p' i ≡ content p i
unfolding bytes_or_zero
content-owner p p' i o m = elim (Option-cases (owner p i)) [
  | inl e ↦ rw (o, e) refl
  | inr (q, e) ↦ rw (o, e) (m q e)
]

pub owner-set_ne :
    (p p' : ChunkPool) (i j : ℕ) (s : Option PagePtr)
    → p'.owner_pages ≡ set p.owner_pages i s
    → (i == j) ≡ false
    → owner p' j ≡ owner p j
unfolding owner
owner-set_ne p p' i j s h ne =
    let same : get_elem? p'.owner_pages j ≡ get_elem? p.owner_pages j =
      ap (λ os. get_elem? os j) h ∙ get_elem?-set_ne p.owner_pages i j s (ground arith) in
    rw same refl

-- The pool after block `i` has given its page `q` back.
abbrev released : ChunkPool → ℕ → PagePtr → ChunkPool
released p i q = record p {
  free_blocks = q ∷ p.free_blocks;
  owner_pages = set p.owner_pages i none;
  committed_pages = if ltb 0 p.committed_pages then p.committed_pages - 1 else p.committed_pages;
}

pub release_page-content :
    (p : ChunkPool) (i j : ℕ) → (i == j) ≡ false → content (release_page p (pos i)) j ≡ content p j
unfolding release_page
release_page-content p i j ne = elim (Bool-cases (ltb i (length p.owner_pages))) [
  | inr f ↦ rw f refl
  | inl t ↦ elim (Option-cases (owner p i)) [
    | inl e ↦ rw (t, e) refl
    | inr (q, e) ↦
        rw (t, e)
          (content-owner p (released p i q) j (owner-set_ne p (released p i q) i j none refl ne)
            λ _ _. refl)
  ]
]

pub release_page-owner_ne :
    (p : ChunkPool) (i j : ℕ) → (i == j) ≡ false → owner (release_page p (pos i)) j ≡ owner p j
unfolding release_page
release_page-owner_ne p i j ne = elim (Bool-cases (ltb i (length p.owner_pages))) [
  | inr f ↦ rw f refl
  | inl t ↦ elim (Option-cases (owner p i)) [
    | inl e ↦ rw (t, e) refl
    | inr (q, e) ↦ rw (t, e) (owner-set_ne p (released p i q) i j none refl ne)
  ]
]

pub release_page-owner : (p : ChunkPool) (i : ℕ) → owner (release_page p (pos i)) i ≡ none
unfolding release_page owner
release_page-owner p i = elim (Option-cases (get_elem? p.owner_pages i)) [
  | inl e ↦ elim (Bool-cases (ltb i (length p.owner_pages))) [
    | inl t ↦ rw (t, e) (rw e refl)
    | inr f ↦ rw f (rw e refl)
  ]
  | inr (none, e) ↦
      let t : ltb i (length p.owner_pages) ≡ true =
        ground (arith, lt_of_get_elem? p.owner_pages i e) in
      rw (t, e) (rw e refl)
  | inr (some q, e) ↦
      let t : ltb i (length p.owner_pages) ≡ true =
        ground (arith, lt_of_get_elem? p.owner_pages i e) in
      let gone = get_elem?-set_self p.owner_pages i none (lt_of_get_elem? p.owner_pages i e) in
      rw (t, e) (rw gone refl)
]

pub release_page-zero : (p : ChunkPool) (i : ℕ) → content (release_page p (pos i)) i ≡ zero_page
unfolding release_page owner bytes_or_zero
release_page-zero p i = elim (Option-cases (get_elem? p.owner_pages i)) [
  | inl e ↦ elim (Bool-cases (ltb i (length p.owner_pages))) [
    | inl t ↦ rw (t, e) (rw e refl)
    | inr f ↦ rw f (rw e refl)
  ]
  | inr (none, e) ↦
      let t : ltb i (length p.owner_pages) ≡ true =
        ground (arith, lt_of_get_elem? p.owner_pages i e) in
      rw (t, e) (rw e refl)
  | inr (some q, e) ↦
      let t : ltb i (length p.owner_pages) ≡ true =
        ground (arith, lt_of_get_elem? p.owner_pages i e) in
      let gone = get_elem?-set_self p.owner_pages i none (lt_of_get_elem? p.owner_pages i e) in
      rw (t, e) (rw gone refl)
]

-- Taking a page for a block without one changes no bytes: the page is zeroed.
pub take_page-content :
    (p : ChunkPool) (i j size : ℕ) (q : PagePtr) (rest : List PagePtr)
    → IsApart p
    → p.free_blocks ≡ q ∷ rest
    → get_elem? p.owner_pages i ≡ some none
    → Same size (content (take_page i size p q rest) j) (content p j)
unfolding bytes_or_zero
take_page-content p i j size q rest a free slot b lt = elim (Bool-cases (i == j)) [
  | inl e ↦
      let same : i ≡ j = ground arith in
      let before : owner p i ≡ none = slot_owner p i none slot in
      let after : owner (take_page i size p q rest) i ≡ some q = taken in
      rw (← same, before, after) (ground arith)
  | inr ne ↦
      ap (λ f. f b)
        (content-owner p (take_page i size p q rest) j
          (owner-set_ne p (take_page i size p q rest) i j (some q) refl ne)
          λ r e. let d = free_differs p j q r rest a free e in rw d refl)
]
  where
    taken : owner (take_page i size p q rest) i ≡ some q
    taken =
        slot_owner (take_page i size p q rest) i (some q)
          (get_elem?-set_self p.owner_pages i (some q) (lt_of_get_elem? p.owner_pages i slot))

module _ (p : ChunkPool) (q : PagePtr) (size : ℕ) (src : Page) (i : ℕ)
    (at : owner p i ≡ some q) where
  pub write_page-owner : (j : ℕ) → owner (write_page p q size src) j ≡ owner p j
  unfolding owner
  write_page-owner j = refl

  pub write_page-content : Same size (content (write_page p q size src) i) src
  unfolding bytes_or_zero
  write_page-content b lt = rw (write_page-owner i, at) (ground arith)

  pub write_page-content_ne :
      (j : ℕ) → IsApart p → (i == j) ≡ false → content (write_page p q size src) j ≡ content p j
  write_page-content_ne j a ne =
      content-owner p (write_page p q size src) j (write_page-owner j)
        λ r e. let d = owners_differ p i j q r a ne at e in rw d refl
