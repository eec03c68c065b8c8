-- ===== src/Residency/Flags.antt =====
-- Which blocks are resident, as a list of Booleans, and how writes to the directory change it.
use mmu.Prelude.{
  ℕ, zero, suc, ℤ, pos, negsuc, ◌≡◌, refl, sym, ap, ◌∙◌, arith, Bool, List, [], ◌∷◌, Option, none,
  some, get_elem?, set, Option-cases, inl, inr,
}
use mmu.BlockDirectory
use mmu.BlockDirectory.{BlockDirectory, BlockMeta}
use mmu.BlockDirectory.Writes.{mutable_get-none, mutable_get-some}
use mmu.Exec.{or_same}

abbrev pub flags_of : List BlockMeta → List Bool
flags_of [] = []
flags_of (m ∷ ms) = m.resident_in_l1 ∷ flags_of ms

pub flags_of-set :
    (ms : List BlockMeta) (i : ℕ) (m : BlockMeta)
    → flags_of (set ms i m) ≡ set (flags_of ms) i m.resident_in_l1
flags_of-set [] i m = refl
flags_of-set (n ∷ ms) zero m = refl
flags_of-set (n ∷ ms) (suc i) m = ap (◌∷◌ n.resident_in_l1) (flags_of-set ms i m)

pub set-same :
    {A : Type 0} (xs : List A) (i : ℕ) (a : A) → get_elem? xs i ≡ some a → set xs i a ≡ xs
set-same [] i a h = refl
set-same (x ∷ xs) zero a h = ap (λ y. y ∷ xs) (ground arith)
set-same (x ∷ xs) (suc i) a h = ap (◌∷◌ x) (set-same xs i a h)

pub set-out : {A : Type 0} (xs : List A) (i : ℕ) (a : A) → get_elem? xs i ≡ none → set xs i a ≡ xs
set-out [] i a h = refl
set-out (x ∷ xs) zero a h = absurd (cc)
set-out (x ∷ xs) (suc i) a h = ap (◌∷◌ x) (set-out xs i a h)

abbrev pub flag_of : Option BlockMeta → Option Bool
flag_of none = none
flag_of (some m) = some m.resident_in_l1

pub get_elem?-flags_of :
    (ms : List BlockMeta) (i : ℕ) → get_elem? (flags_of ms) i ≡ flag_of (get_elem? ms i)
get_elem?-flags_of [] i = refl
get_elem?-flags_of (m ∷ ms) zero = refl
get_elem?-flags_of (m ∷ ms) (suc i) = get_elem?-flags_of ms i

-- A write through `mutable_get` that sets the flag to `b` in every block.
pub mutable_get-flags :
    (d : BlockDirectory) (i : ℕ) (f : BlockMeta → BlockMeta) (b : Bool)
    → ((m : BlockMeta) → (f m).resident_in_l1 ≡ b)
    → flags_of (or_same d (BlockDirectory.mutable_get d (pos i) f)).metas
      ≡ set (flags_of d.metas) i b
mutable_get-flags d i f b h = elim (Option-cases (get_elem? d.metas i)) [
  | inl e ↦
      rw (mutable_get-none d i f e)
        (sym (set-out (flags_of d.metas) i b (get_elem?-flags_of d.metas i ∙ ap flag_of e)))
  | inr (m, e) ↦
      rw (mutable_get-some d i f m e)
        (flags_of-set d.metas i (f m) ∙ ap (set (flags_of d.metas) i) (h m))
]

-- A write that leaves the flag alone.
pub mutable_get-flags_same :
    (d : BlockDirectory) (id : ℤ) (f : BlockMeta → BlockMeta)
    → ((m : BlockMeta) → (f m).resident_in_l1 ≡ m.resident_in_l1)
    → flags_of (or_same d (BlockDirectory.mutable_get d id f)).metas ≡ flags_of d.metas
unfolding BlockDirectory.mutable_get
mutable_get-flags_same d (negsuc i) f h = refl
mutable_get-flags_same d (pos i) f h = elim (Option-cases (get_elem? d.metas i)) [
  | inl e ↦ rw (mutable_get-none d i f e) refl
  | inr (m, e) ↦ rw (mutable_get-some d i f m e) (
      flags_of-set d.metas i (f m)
      ∙ ap (set (flags_of d.metas) i) (h m)
      ∙ set-same (flags_of d.metas) i m.resident_in_l1
          (get_elem?-flags_of d.metas i ∙ ap flag_of e))
]
