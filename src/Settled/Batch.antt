-- ===== src/Settled/Batch.antt =====
-- mmu_map_logical_blocks against the single calls.
use mmu.Prelude.{ℕ, List, [], ◌∷◌, ◌++◌, Option, none, some, ◌≡◌, refl, ap}
use mathlib.Core.List.{append-nil, append_assoc}
use mmu.Types.{Result, ok, err, ptr, Error, MappedBlock}
use mmu.Exec.{◌>>=◌}
use mmu.Exec.Returns.{came, with_value, with_error}
use mmu.Runtime.{Runtime}
use mmu.Api.{Handle}
use mmu.Api.Mapping.{
  mmu_map_logical_block, mmu_map_logical_blocks, mmu_unmap_logical_block, map_each, unmap_all,
}
use mmu.Settled.{Settled}
use mmu.Settled.History.{SettledAt, map-Completes}

-- Single calls one after the other, up to the first that fails: the blocks that they map, the error
-- if there is one, and the state that they leave.
pub data Maps (ctx flags : ℕ)
    : List ℕ → Handle → List MappedBlock → Option Error → Handle → Type 0 where
  done : (mmu : Handle) → Maps ctx flags [] mmu [] none mmu
  mapped :
      (lb : ℕ) (lbs : List ℕ) (mmu mmu' mmu'' : Handle) (b : MappedBlock) (bs : List MappedBlock)
      (failure : Option Error)
      → mmu_map_logical_block ctx lb flags ptr mmu ≡ (ok b, mmu')
      → Maps ctx flags lbs mmu' bs failure mmu''
      → Maps ctx flags (lb ∷ lbs) mmu (b ∷ bs) failure mmu''
  failed :
      (lb : ℕ) (lbs : List ℕ) (mmu mmu' : Handle) (e : Error)
      → mmu_map_logical_block ctx lb flags ptr mmu ≡ (err e, mmu')
      → Maps ctx flags (lb ∷ lbs) mmu [] (some e) mmu'

-- The blocks of a list unmapped one after the other by single calls, whatever they return.
pub data Unmaps (ctx : ℕ) : List MappedBlock → Handle → Handle → Type 0 where
  finished : (mmu : Handle) → Unmaps ctx [] mmu mmu
  unmapped :
      (b : MappedBlock) (bs : List MappedBlock) (mmu mmu' mmu'' : Handle)
      → (mmu_unmap_logical_block ctx (some b) mmu).1 ≡ mmu'
      → Unmaps ctx bs mmu' mmu''
      → Unmaps ctx (b ∷ bs) mmu mmu''

-- What a batch makes of the blocks mapped: on a failure they are unmapped.
pub data Outcome (ctx : ℕ) (bs : List MappedBlock) (mmu : Handle)
    : Option Error → Result (List MappedBlock) × Handle → Type 0 where
  all_mapped : Outcome ctx bs mmu none (ok bs, mmu)
  rolled_back :
      (e : Error) (mmu' : Handle)
      → Unmaps ctx bs mmu mmu'
      → Outcome ctx bs mmu (some e) (err e, mmu')

unmap_all-Unmaps :
    (ctx : ℕ) (bs : List MappedBlock) (mmu : Handle) → Unmaps ctx bs mmu (unmap_all ctx bs mmu)
unfolding unmap_all
unmap_all-Unmaps ctx [] mmu = Unmaps.finished mmu
unmap_all-Unmaps ctx (b ∷ bs) mmu =
    let after = (mmu_unmap_logical_block ctx (some b) mmu).1 in
    Unmaps.unmapped b bs mmu after _ refl (unmap_all-Unmaps ctx bs after)

module _ (ctx flags : ℕ) where
  -- Some single calls, and that the loop has their outcome.
  abbrev pub Batch :
      List ℕ → Handle → List MappedBlock → Result (List MappedBlock) × Handle → Type 0
  Batch lbs mmu before result =
      (bs : List MappedBlock) × (failure : Option Error) × (mmu' : Handle) × Maps ctx flags lbs mmu
        bs failure mmu'
      × Outcome ctx (before ++ bs) mmu' failure result

  map_each-Batch :
      (lbs : List ℕ) (before : List MappedBlock) (mmu : Handle)
      → SettledAt mmu
      → Batch lbs mmu before (map_each ctx flags lbs before mmu)
  unfolding map_each
  map_each-Batch [] before mmu h =
      ([], none, mmu, Maps.done mmu, rw (append-nil before) Outcome.all_mapped)
  map_each-Batch (lb ∷ lbs) before mmu h =
      let s = mmu_map_logical_block ctx lb flags ptr mmu in
      let (settled, back) = (map-Completes ctx lb flags).completes mmu h in
      elim (came s.0 back) [
        | with_error x e ↦ (
          [],
          some x,
          s.1,
          Maps.failed lb lbs mmu s.1 x (ap (λ r. (r, s.1)) e),
          rw (e, append-nil before) (Outcome.rolled_back x _ (unmap_all-Unmaps ctx before s.1)),
        )
        | with_value b e ↦
            let (bs, failure, mmu', calls, result) =
              map_each-Batch lbs (before ++ b ∷ []) s.1 settled in
            (
              b ∷ bs,
              failure,
              mmu',
              Maps.mapped lb lbs mmu s.1 mmu' b bs failure (ap (λ r. (r, s.1)) e) calls,
              rw (e, ← append_assoc before (b ∷ []) bs) result,
            )
      ]

  -- On a settled runtime, as every history of calls leaves it, mapping an array of blocks maps each
  -- block in order by a single call, up to the first that fails. If none fails it returns what they
  -- return; otherwise it returns that error, and the blocks mapped before it have been unmapped by
  -- single calls, in order.
  pub mmu_map_logical_blocks-Batch :
      (lbs : List ℕ) (rt : Runtime)
      → Settled rt
      → Batch lbs (some rt) [] (mmu_map_logical_blocks ctx ptr lbs flags ptr (some rt))
  unfolding mmu_map_logical_blocks ◌>>=◌
  mmu_map_logical_blocks-Batch [] rt h = map_each-Batch [] [] (some rt) h
  mmu_map_logical_blocks-Batch (lb ∷ lbs) rt h = map_each-Batch (lb ∷ lbs) [] (some rt) h
