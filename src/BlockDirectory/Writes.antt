-- ===== src/BlockDirectory/Writes.antt =====
-- What each write leaves at each index of the directory.
use mmu.Prelude.{
  ℕ, zero, suc, [], ◌∷◌, pos, ◌≡◌, refl, ◌∙◌, arith, false, Option, none, some, List, length,
  get_elem?, set, ltb, ◌==◌, inl, inr, Bool-cases, Option-cases, lt_of_get_elem?, if◌then◌else◌,
}
use mmu.Exec.{or_same}
use mmu.BlockDirectory.{
  BlockDirectory, BlockMeta, get, mutable_get, reset, initialize_fresh_block, default_meta,
  fresh_meta,
}

-- A write at `i` where there is an entry.
abbrev pub written {ℓ} : {A : Type ℓ} → (A → A) → Option A → Option A
written f none = none
written f (some a) = some (f a)

pub get-at : (d : BlockDirectory) (i : ℕ) → get d (pos i) ≡ get_elem? d.metas i
unfolding get
get-at d i = elim (Option-cases (get_elem? d.metas i)) [
  | inl e ↦ ground (arith, e)
  | inr (m, e) ↦ ground (arith, e, lt_of_get_elem? d.metas i e)
]

pub set-at {ℓ} :
    {A : Type ℓ} (xs : List A) (i j : ℕ) (a : A)
    → get_elem? (set xs i a) j
      ≡ (if i == j then written (λ _. a) (get_elem? xs j) else get_elem? xs j)
set-at [] i j a = ground arith
set-at (x ∷ xs) zero zero a = refl
set-at (x ∷ xs) zero (suc j) a = ground arith
set-at (x ∷ xs) (suc i) zero a = ground arith
set-at (x ∷ xs) (suc i) (suc j) a = ground (arith, set-at xs i j a)

pub mutable_get-none :
    (d : BlockDirectory) (i : ℕ) (f : BlockMeta → BlockMeta)
    → get_elem? d.metas i ≡ none
    → mutable_get d (pos i) f ≡ none
unfolding mutable_get
mutable_get-none d i f e = ground (arith, e)

pub mutable_get-some :
    (d : BlockDirectory) (i : ℕ) (f : BlockMeta → BlockMeta) (m : BlockMeta)
    → get_elem? d.metas i ≡ some m
    → mutable_get d (pos i) f ≡ some (record { metas = set d.metas i (f m) })
unfolding mutable_get
mutable_get-some d i f m e = ground (arith, e, lt_of_get_elem? d.metas i e)

pub get_elem?-none :
    {A : Type 0} (xs : List A) (i : ℕ) → ltb i (length xs) ≡ false → get_elem? xs i ≡ none
get_elem?-none xs i h = elim (Option-cases (get_elem? xs i)) [
  | inl e ↦ e
  | inr (x, e) ↦ absurd (ground (arith, lt_of_get_elem? xs i e))
]

-- A write where there is no entry.
write_out :
    {A : Type 0} (xs : List A) (i j : ℕ) (f : A → A)
    → get_elem? xs i ≡ none
    → get_elem? xs j ≡ (if i == j then written f (get_elem? xs j) else get_elem? xs j)
write_out xs i j f h = elim (Bool-cases (i == j)) [
  | inl e ↦
      let same : i ≡ j = ground arith in
      let out : get_elem? xs j ≡ none = rw (← same) h in rw (e, out) refl
  | inr e ↦ rw e refl
]

write_same :
    {A : Type 0} (xs : List A) (i j : ℕ) (f : A → A) (x : A)
    → get_elem? xs i ≡ some x
    → get_elem? (set xs i (f x)) j ≡ (if i == j then written f (get_elem? xs j) else get_elem? xs j)
write_same xs i j f x h = set-at xs i j (f x) ∙ elim (Bool-cases (i == j)) [
  | inl e ↦
      let same : i ≡ j = ground arith in
      let at : get_elem? xs j ≡ some x = rw (← same) h in rw (e, at) refl
  | inr e ↦ rw e refl
]

module _ (d : BlockDirectory) (i j : ℕ) where
  pub mutable_get-at :
      (f : BlockMeta → BlockMeta)
      → get_elem? (or_same d (mutable_get d (pos i) f)).metas j
        ≡ (if i == j then written f (get_elem? d.metas j) else get_elem? d.metas j)
  mutable_get-at f = elim (Option-cases (get_elem? d.metas i)) [
    | inl e ↦ rw (mutable_get-none d i f e) (write_out d.metas i j f e)
    | inr (m, e) ↦ rw (mutable_get-some d i f m e) (write_same d.metas i j f m e)
  ]

  pub reset-at :
      get_elem? (reset d (pos i)).metas j
      ≡ (if i == j then written (λ _. default_meta) (get_elem? d.metas j) else get_elem? d.metas j)
  unfolding reset
  reset-at = elim (Bool-cases (ltb i (length d.metas))) [
    | inl t ↦ rw t (set-at d.metas i j default_meta)
    | inr f ↦ rw f (write_out d.metas i j (λ _. default_meta) (get_elem?-none d.metas i f))
  ]

  pub initialize-at :
      get_elem? (or_same d (initialize_fresh_block d (pos i))).metas j
      ≡ (if i == j then written (λ _. fresh_meta) (get_elem? d.metas j) else get_elem? d.metas j)
  unfolding initialize_fresh_block
  initialize-at = elim (Bool-cases (ltb i (length d.metas))) [
    | inl t ↦ rw t (set-at d.metas i j fresh_meta)
    | inr f ↦ rw f (write_out d.metas i j (λ _. fresh_meta) (get_elem?-none d.metas i f))
  ]
