-- ===== src/Api/Queries/Batch.antt =====
-- The batch of routes, against calls for one block each.
use mmu.Prelude.{
  ℕ, ℤ, List, [], ◌∷◌, ◌++◌, Option, none, some, ◌≡◌, refl, ap, subst, ◌⊎◌, inl, inr, ◌≢◌, arith,
}
use mathlib.Core.Path.{fun_ext}
use mmu.Types.{ptr, Result, ok, err, stuck, Error, PhysicalRoute}
use mmu.Exec.{◌>>=◌}
use mmu.BlockDirectory.{BlockDirectory}
use mmu.Context
use mmu.Context.{Context}
use mmu.Runtime.{Runtime, find_context}
use mmu.Api.{to_int, mmu_resolve_routing, resolve_routing}
use mmu.Api.Queries.{resolve_one, resolve_each, mmu_resolve_routing_batch, then_routes, batch_found}

Result-cases {ℓ} :
    {A : Type ℓ} (r : Result A)
    → ((a : A) × (r ≡ ok a)) ⊎ (((e : Error) × (r ≡ err e)) ⊎ (r ≡ stuck))
Result-cases (ok a) = inl (a, refl)
Result-cases (err e) = inr (inl (e, refl))
Result-cases stuck = inr (inr refl)

resolve_one-ne-stuck : (c : Context) (d : BlockDirectory) (o : Option ℤ) → resolve_one c d o ≢ stuck
unfolding resolve_one Context.resolve_routing
resolve_one-ne-stuck c d none h = cc
resolve_one-ne-stuck c d (some lvid) h = ground arith

-- The routes of the single calls.
abbrev pub Each : (ℕ → Result PhysicalRoute) → List ℕ → List PhysicalRoute → Type 0
Each f [] [] = Unit
Each f [] (r ∷ rs) = ⊥
Each f (lb ∷ lbs) [] = ⊥
Each f (lb ∷ lbs) (r ∷ rs) = (f lb ≡ ok r) × Each f lbs rs

-- The status is `ok` and every block has its route; or the first block that fails gives the status,
-- and the routes of the blocks before it have been written.
abbrev pub Runs :
    (ℕ → Result PhysicalRoute) → List ℕ → Result (Unit {0}) × List PhysicalRoute → Type 0
Runs f lbs (status, rs) =
    ((status ≡ ok tt) × Each f lbs rs)
    ⊎ ((before : List ℕ) × (lb : ℕ) × (after : List ℕ) × (e : Error) × (lbs ≡ before ++ lb ∷ after)
        × Each f before rs
        × (f lb ≡ err e)
        × (status ≡ err e))

Runs-step :
    (f : ℕ → Result PhysicalRoute) (lb : ℕ) (lbs : List ℕ)
    (rest : Result (Unit {0}) × List PhysicalRoute)
    → f lb ≢ stuck
    → Runs f lbs rest
    → Runs f (lb ∷ lbs) (then_routes (f lb) rest)
Runs-step f lb lbs (status, rs) h r = elim (Result-cases (f lb)) [
  | inl (a, e) ↦
      rw (e, then_routes)
        (elim r [
          | inl (done, each) ↦ inl (done, (e, each))
          | inr (before, x, after, w, split, each, bad, s) ↦
              inr (lb ∷ before, x, after, w, ap (λ t. lb ∷ t) split, (e, each), bad, s)
        ])
  | inr (inl (w, e)) ↦ rw (e, then_routes) (inr ([], lb, lbs, w, refl, tt, e, refl))
  | inr (inr e) ↦ absurd (h e)
]

resolve_each-Runs :
    (c : Context) (d : BlockDirectory) (lbs : List ℕ)
    → Runs (λ lb. resolve_one c d (to_int lb)) lbs (resolve_each c d lbs)
unfolding resolve_each
resolve_each-Runs c d [] = inl (refl, tt)
resolve_each-Runs c d (lb ∷ lbs) =
    Runs-step (λ x. resolve_one c d (to_int x)) lb lbs (resolve_each c d lbs)
      (resolve_one-ne-stuck c d (to_int lb)) (resolve_each-Runs c d lbs)

single :
    (ctx lb : ℕ) (rt : Runtime) (c : Context)
    → find_context ctx rt ≡ some c
    → resolve_one c rt.block_directory (to_int lb) ≡ (mmu_resolve_routing ctx lb ptr (some rt)).0
unfolding mmu_resolve_routing resolve_routing resolve_one ◌>>=◌
single ctx lb rt c e = rw e (ground arith)

found-Runs :
    (c : Context) (d : BlockDirectory) (lbs : List ℕ)
    → Runs (λ lb. resolve_one c d (to_int lb)) lbs (batch_found (some c) d ptr lbs ptr)
unfolding batch_found
found-Runs c d [] = resolve_each-Runs c d []
found-Runs c d (lb ∷ lbs) = resolve_each-Runs c d (lb ∷ lbs)

-- The batch does what the single calls do one after the other. It stops at the first block that
-- fails and returns its error, after the routes of the blocks before it have been written.
pub mmu_resolve_routing_batch-Runs :
    (ctx : ℕ) (rt : Runtime) (c : Context) (lbs : List ℕ)
    → find_context ctx rt ≡ some c
    → Runs
        (λ lb. (mmu_resolve_routing ctx lb ptr (some rt)).0)
        lbs
        (mmu_resolve_routing_batch ctx ptr lbs ptr (some rt))
unfolding mmu_resolve_routing_batch
mmu_resolve_routing_batch-Runs ctx rt c lbs e =
    subst (λ f. Runs f lbs (batch_found (find_context ctx rt) rt.block_directory ptr lbs ptr))
      (fun_ext (λ lb. single ctx lb rt c e)) (rw e (found-Runs c rt.block_directory lbs))
