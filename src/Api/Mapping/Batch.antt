-- ===== src/Api/Mapping/Batch.antt =====
-- mmu_unmap_logical_blocks against the single calls.
use mmu.Prelude.{ℕ, List, [], ◌∷◌, some, ◌≡◌, refl, ◌∙◌}
use mmu.Types.{Result, ok, err, stuck, MappedBlock}
use mmu.Runtime.{Runtime}
use mmu.Api.{Handle}
use mmu.Api.Mapping.{
  mmu_unmap_logical_block, mmu_unmap_logical_blocks, unmap_each, unmap_all, first_error,
}

-- What the single calls return, one after the other.
abbrev pub unmap_results : ℕ → List MappedBlock → Handle → List (Result (Unit {0}))
unmap_results ctx [] mmu = []
unmap_results ctx (b ∷ bs) mmu =
    (mmu_unmap_logical_block ctx (some b) mmu).0
    ∷ unmap_results ctx bs (mmu_unmap_logical_block ctx (some b) mmu).1

abbrev pub first_failure : List (Result (Unit {0})) → Result (Unit {0})
first_failure [] = ok tt
first_failure (ok u ∷ rs) = first_failure rs
first_failure (err e ∷ rs) = err e
first_failure (stuck ∷ rs) = stuck

first_error-first_failure :
    (first r : Result (Unit {0})) (rs : List (Result (Unit {0})))
    → first_error (first_error first r) (first_failure rs)
      ≡ first_error first (first_failure (r ∷ rs))
first_error-first_failure (ok u) (ok v) rs = refl
first_error-first_failure (ok u) (err e) rs = refl
first_error-first_failure (ok u) stuck rs = refl
first_error-first_failure (err x) r rs = refl
first_error-first_failure stuck r rs = refl

unmap_each-eq :
    (ctx : ℕ) (bs : List MappedBlock) (first : Result (Unit {0})) (mmu : Handle)
    → unmap_each ctx bs first mmu
      ≡ (first_error first (first_failure (unmap_results ctx bs mmu)), unmap_all ctx bs mmu)
unfolding unmap_each unmap_all
unmap_each-eq ctx [] (ok u) mmu = refl
unmap_each-eq ctx [] (err e) mmu = refl
unmap_each-eq ctx [] stuck mmu = refl
unmap_each-eq ctx (b ∷ bs) first mmu =
    unmap_each-eq ctx bs _ _ ∙ rw (first_error-first_failure first _ _) refl

-- Unmapping an array of blocks through a handle that is not null unmaps each block in order, past
-- any failures, and returns what the first single call that fails returns, or success if none does.
pub mmu_unmap_logical_blocks-first_failure :
    (ctx : ℕ) (bs : List MappedBlock) (rt : Runtime)
    → mmu_unmap_logical_blocks ctx (some bs) (some rt)
      ≡ (first_failure (unmap_results ctx bs (some rt)), unmap_all ctx bs (some rt))
unfolding mmu_unmap_logical_blocks
mmu_unmap_logical_blocks-first_failure ctx bs rt = unmap_each-eq ctx bs (ok tt) (some rt)
