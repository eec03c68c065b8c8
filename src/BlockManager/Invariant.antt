-- ===== src/BlockManager/Invariant.antt =====
-- Well-formedness of the block manager: a block is on the free list, once, exactly while its
-- reference count is 0.
use mmu.Prelude.{
  ℕ, zero, suc, ◌+◌, ◌<◌, ℤ, pos, negsuc, ◌≡◌, refl, ◌≢◌, ap, Bool, false, List, [], ◌∷◌, Option,
  none, some, arith, length, get_elem?, set, replicate, tally, to_nat, ltb, ◌==◌, ◌&&◌,
  if◌then◌else◌, ◌⊎◌, inl, inr, Option-cases, Bool-cases, tally-set, get_elem?-set_self,
  get_elem?-set_ne, lt_of_get_elem?,
}
use mmu.Types.{ptr}
use mmu.BlockManager.{
  BlockManager, init, upto, allocate, allocate_specific, retain, release, contains, erase,
  take_back,
}

abbrev pub occurs : ℕ → List ℕ → ℕ
occurs i = tally (λ x. x == i)

abbrev pub is_zero : ℕ → Bool
is_zero r = r == 0

abbrev zero_entry : Option ℕ → Bool
zero_entry none = false
zero_entry (some r) = r == 0

abbrev pub free_at : List ℕ → ℕ → Bool
free_at rs i = zero_entry (get_elem? rs i)

pub record IsValid (m : BlockManager) : Type 0 where
  pub once : (i : ℕ) → occurs i m.free_list ≡ to_nat (free_at m.ref_counts i)
  pub counted : length m.free_list ≡ tally is_zero m.ref_counts

pub free_at-set :
    (rs : List ℕ) (i j v : ℕ)
    → i < length rs
    → free_at (set rs i v) j ≡ (if i == j then v == 0 else free_at rs j)
free_at-set rs i j v h = elim (Bool-cases (i == j)) [
  | inl e ↦
      let e' : i ≡ j = ground arith in rw (e, ← e') (ap zero_entry (get_elem?-set_self rs i v h))
  | inr e ↦ rw e (ap zero_entry (get_elem?-set_ne rs i j v (ground arith)))
]

occurs-upto : (i k n : ℕ) → occurs i (upto k n) ≡ (if ltb i k then 0 else to_nat (ltb i (k + n)))
occurs-upto i k zero = ground arith
occurs-upto i k (suc n) = ground (arith, occurs-upto i (suc k) n)

length-upto : (k n : ℕ) → length (upto k n) ≡ n
length-upto k zero = refl
length-upto k (suc n) = ap suc (length-upto (suc k) n)

tally-replicate : (n : ℕ) → tally is_zero (replicate n 0) ≡ n
tally-replicate zero = refl
tally-replicate (suc n) = omega (arith, tally-replicate n)

free_at-replicate : (n i : ℕ) → free_at (replicate n 0) i ≡ ltb i n
free_at-replicate zero i = ground arith
free_at-replicate (suc n) zero = ground arith
free_at-replicate (suc n) (suc i) = ground (arith, free_at-replicate n i)

pub init-IsValid : (n : ℕ) → IsValid (init n)
unfolding init
init-IsValid n = record {
  once = λ i. ground (arith, occurs-upto i 0 n, free_at-replicate n i);
  counted = omega (arith, length-upto 0 n, tally-replicate n);
}

pub occurs-erase :
    (i j : ℕ) (xs : List ℕ) → occurs j (erase xs i) + to_nat (i == j && contains xs i) ≡ occurs j xs
occurs-erase i j [] = ground arith
occurs-erase i j (x ∷ xs) = ground (arith, occurs-erase i j xs)

length-erase : (i : ℕ) (xs : List ℕ) → length (erase xs i) + to_nat (contains xs i) ≡ length xs
length-erase i [] = ground arith
length-erase i (x ∷ xs) = ground (arith, length-erase i xs)

pub contains-occurs : (i : ℕ) (xs : List ℕ) → contains xs i ≡ ltb 0 (occurs i xs)
contains-occurs i [] = ground arith
contains-occurs i (x ∷ xs) = ground (arith, contains-occurs i xs)

-- A write of one count, with the free list changed at that block only.
module _ (m : BlockManager) (valid : IsValid m) (i old : ℕ)
    (found : get_elem? m.ref_counts i ≡ some old) (v : ℕ) (free_list : List ℕ) where
  write-IsValid :
      ((j : ℕ) → occurs j free_list ≡ (if i == j then to_nat (v == 0) else occurs j m.free_list))
      → length free_list + to_nat (old == 0) ≡ length m.free_list + to_nat (v == 0)
      → IsValid (record { ref_counts = set m.ref_counts i v; free_list = free_list })
  write-IsValid same counted = record {
    once = λ j. ground (
      arith,
      same j,
      valid.once j,
      free_at-set m.ref_counts i j v (lt_of_get_elem? m.ref_counts i found),
    );
    counted = omega (arith, counted, valid.counted, tally-set is_zero m.ref_counts i v old found);
  }

-- `m'` is `m` with the count of block `i` moved from `old` to `new`, and well-formed.
abbrev pub Updates : BlockManager → ℕ → ℕ → ℕ → BlockManager → Type 0
Updates m i old new m' =
    (get_elem? m.ref_counts i ≡ some old) × (m'.ref_counts ≡ set m.ref_counts i new) × IsValid m'

pub head-free :
    (i : ℕ) (rest rs : List ℕ)
    → occurs i (i ∷ rest) ≡ to_nat (free_at rs i)
    → get_elem? rs i ≡ some 0
head-free i rest rs h = ground (arith, Option-cases (get_elem? rs i))

take_back-Updates :
    (fl rs : List ℕ)
    → IsValid (record { ref_counts = rs; free_list = fl })
    → let m : BlockManager = record { ref_counts = rs; free_list = fl } in
      ((fl ≡ []) × (take_back m fl ≡ none))
      ⊎ ((i : ℕ) × (m' : BlockManager) × (take_back m fl ≡ some (pos i, m'))
          × Updates m i 0 1 m'
          × (suc (length m'.free_list) ≡ length fl))
take_back-Updates [] rs v = inl (refl, refl)
take_back-Updates (i ∷ rest) rs v =
    let free : get_elem? rs i ≡ some 0 = head-free i rest rs (v.once i) in
    inr (
      i,
      record { ref_counts = set rs i 1; free_list = rest },
      refl,
      (
        free,
        refl,
        write-IsValid _ v i 0 free 1 rest (λ j. ground (arith, v.once i, free)) (omega arith),
      ),
      refl,
    )

-- In a well-formed manager `allocate` fails exactly when no block is free. Otherwise it hands out a
-- block whose count was 0 and is now 1, and takes one entry off the free list.
pub allocate-Updates :
    (m : BlockManager)
    → IsValid m
    → ((m.free_list ≡ []) × (allocate m ptr ≡ none))
      ⊎ ((i : ℕ) × (m' : BlockManager) × (allocate m ptr ≡ some (pos i, m'))
          × Updates m i 0 1 m'
          × (suc (length m'.free_list) ≡ length m.free_list))
unfolding allocate
allocate-Updates m v = take_back-Updates m.free_list m.ref_counts v

-- A count below 1, also that of an id out of range.
abbrev pub Unreferenced : BlockManager → ℤ → Type 0
Unreferenced m (pos i) = (get_elem? m.ref_counts i ≡ none) ⊎ (get_elem? m.ref_counts i ≡ some 0)
Unreferenced m (negsuc i) = Unit

-- In a well-formed manager `retain` fails exactly on an id out of range or a block without references. Otherwise the count
-- grows by one and the free list stays.
pub retain-Updates :
    (m : BlockManager) (id : ℤ)
    → IsValid m
    → (Unreferenced m id × (retain m id ≡ none))
      ⊎ ((i : ℕ) × (r : ℕ) × (m' : BlockManager) × (id ≡ pos i)
          × (retain m id ≡ some m')
          × Updates m i (suc r) (suc (suc r)) m'
          × (m'.free_list ≡ m.free_list))
unfolding retain
retain-Updates m (negsuc i) v = inl (tt, refl)
retain-Updates m (pos i) v = elim (Option-cases (get_elem? m.ref_counts i)) [
  | inl e ↦ inl (inl e, ground arith)
  | inr (zero, e) ↦ inl (inr e, ground arith)
  | inr (suc r, e) ↦ inr (
    i,
    r,
    record m { ref_counts = set m.ref_counts i (suc (suc r)) },
    refl,
    ground (arith, lt_of_get_elem? m.ref_counts i e),
    (
      e,
      refl,
      write-IsValid m v i (suc r) e (suc (suc r)) m.free_list (λ j. ground (arith, v.once i, e))
          (ground arith),
    ),
    refl,
  )
]

-- In a well-formed manager `release` fails exactly on an id out of range or a block without references. Otherwise the count
-- falls by one, and the free list grows by one exactly when the count has come to 0.
pub release-Updates :
    (m : BlockManager) (id : ℤ)
    → IsValid m
    → (Unreferenced m id × (release m id ≡ none))
      ⊎ ((i : ℕ) × (r : ℕ) × (m' : BlockManager) × (id ≡ pos i)
          × (release m id ≡ some m')
          × Updates m i (suc r) r m'
          × (length m'.free_list ≡ length m.free_list + to_nat (r == 0)))
unfolding release
release-Updates m (negsuc i) v = inl (tt, refl)
release-Updates m (pos i) v = elim (Option-cases (get_elem? m.ref_counts i)) [
  | inl e ↦ inl (inl e, ground arith)
  | inr (zero, e) ↦ inl (inr e, ground arith)
  | inr (suc r, e) ↦
      let fl : List ℕ = if r == 0 then i ∷ m.free_list else m.free_list in
      inr (
        i,
        r,
        record { ref_counts = set m.ref_counts i r; free_list = fl },
        refl,
        ground (arith, lt_of_get_elem? m.ref_counts i e),
        (
          e,
          refl,
          write-IsValid m v i (suc r) e r fl (λ j. ground (arith, v.once i, e)) (ground arith),
        ),
        ground arith,
      )
]

-- In a well-formed manager `allocate_specific` fails exactly if the block is not free. Otherwise it
-- takes that block, whose count was 0 and is now 1, and one entry goes off the free list.
pub allocate_specific-Updates :
    (m : BlockManager) (id : ℤ)
    → IsValid m
    → (((i : ℕ) → id ≡ pos i → get_elem? m.ref_counts i ≢ some 0) × (allocate_specific m id ≡ none))
      ⊎ ((i : ℕ) × (m' : BlockManager) × (id ≡ pos i)
          × (allocate_specific m id ≡ some m')
          × Updates m i 0 1 m'
          × (suc (length m'.free_list) ≡ length m.free_list))
unfolding allocate_specific
allocate_specific-Updates m (negsuc i) v = inl (λ j e. cc, refl)
allocate_specific-Updates m (pos i) v = elim (Option-cases (get_elem? m.ref_counts i)) [
  | inl e ↦ inl (λ j eq h. ground arith, ground (arith, v.once i, contains-occurs i m.free_list))
  | inr (suc r, e) ↦
      inl (λ j eq h. ground arith, ground (arith, v.once i, contains-occurs i m.free_list))
  | inr (zero, e) ↦ inr (
    i,
    record { ref_counts = set m.ref_counts i 1; free_list = erase m.free_list i },
    refl,
    ground (arith, v.once i, contains-occurs i m.free_list, lt_of_get_elem? m.ref_counts i e),
    (
      e,
      refl,
      write-IsValid m v i 0 e 1 (erase m.free_list i)
          (λ j.
            ground (arith, v.once i, occurs-erase i j m.free_list, contains-occurs i m.free_list))
          (ground (arith, v.once i, length-erase i m.free_list, contains-occurs i m.free_list)),
    ),
    ground (arith, v.once i, length-erase i m.free_list, contains-occurs i m.free_list),
  )
]
