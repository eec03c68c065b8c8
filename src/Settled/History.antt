-- ===== src/Settled/History.antt =====
-- Any history of calls keeps a runtime settled, and every call comes back.
use mmu.Prelude.{negsuc, arith, ℕ, ℤ, List, [], ◌∷◌, ◌++◌, none, some, ◌≡◌, refl, Bool, true, false}
use mmu.Types.{PagePtr, Error, ptr, Tier, Result, ok, err, stuck, MappedBlock}
use mmu.Exec.{Exec, fail_if, ◌>>=◌, continue}
use mmu.Exec.Returns.{returns}
use mmu.Runtime.{Runtime}
use mmu.Api.{
  Handle, Call, on_runtime, mmu_create_context, mmu_destroy_context, mmu_fork_context,
  mmu_allocate_blocks, mmu_release_logical_block, mmu_prepare_block_for_write,
}
use mmu.Api.Mapping.{
  mmu_map_logical_block, mmu_map_logical_blocks, mmu_unmap_logical_block, mmu_unmap_logical_blocks,
  map_each, map_next, unmap_all, unmap_each, unless_null, first_error,
}
use mmu.Api.TestApi.{mmu_test_update_mapping}
use mmu.ChunkPool.{Page}
use mmu.History.{Action, perform, on_handle, client_write}
use mmu.Settled.{Settled, Calm-SettledBut}
use mmu.Settled.Rules.{Settles}
use mmu.Settled.Blocks.{release_logical_block-Settles, prepare_block_for_write-Settles}
use mmu.Settled.Remap.{update_mapping-Settles}
use mmu.Settled.Allocate.{allocate_blocks-Settles}
use mmu.Settled.Calls.{
  create_context-Settles, fork_context-Settles, destroy_context-Settled, map_logical_block-Settles,
  unmap_logical_block-Settles,
}

-- A null handle is settled.
abbrev pub SettledAt : Handle → Type 0
SettledAt none = Unit
SettledAt (some rt) = Settled rt

-- A call through a handle that comes back, and leaves a settled runtime settled.
pub record Completes {A : Type 0} (m : Call A) : Type 0 where
  pub completes : (mmu : Handle) → SettledAt mmu → SettledAt (m mmu).1 × (returns (m mmu).0 ≡ true)

on_runtime-Completes :
    {A : Type 0} (e : Error) (m : Exec Runtime A) → Settles m → Completes (on_runtime e m)
on_runtime-Completes e m k = record {
  completes = elim [ none ↦ λ h. (tt, refl) | some rt ↦ λ h. k.settles rt h ];
}

continue-Completes :
    {A B : Type 0} (r : Result A) (f : A → Call B) (mmu : Handle)
    → SettledAt mmu × (returns r ≡ true)
    → ((a : A) → Completes (f a))
    → SettledAt (continue r f mmu).1 × (returns (continue r f mmu).0 ≡ true)
continue-Completes (ok a) f mmu h k = (k a).completes mmu h.0
continue-Completes (err e) f mmu h k = (h.0, refl)
continue-Completes stuck f mmu h k = absurd (cc (h.1))

Completes-bind :
    {A B : Type 0} (m : Call A) (f : A → Call B)
    → Completes m
    → ((a : A) → Completes (f a))
    → Completes (m >>= f)
unfolding ◌>>=◌
Completes-bind m f km kf = record {
  completes = λ mmu h. continue-Completes (m mmu).0 f (m mmu).1 (km.completes mmu h) kf;
}

Completes-fail_if : (b : Bool) (e : Error) → Completes (fail_if b e)
unfolding fail_if
Completes-fail_if true e = record { completes = λ mmu h. (h, refl) }
Completes-fail_if false e = record { completes = λ mmu h. (h, refl) }

Completes-unless_null :
    {A : Type 0} (e : Error) (m : Call A) → Completes m → Completes (unless_null e m)
Completes-unless_null e m k = record {
  completes = elim [ none ↦ λ h. (tt, refl) | some rt ↦ λ h. k.completes (some rt) h ];
}

ruleset completes_rules =
    (Completes-bind, Completes-fail_if, Completes-unless_null, on_runtime-Completes)

pub map-Completes : (ctx lb map_flags : ℕ) → Completes (mmu_map_logical_block ctx lb map_flags ptr)
unfolding mmu_map_logical_block
map-Completes ctx lb map_flags = search (completes_rules, map_logical_block-Settles) depth 20

unmap-Completes : (ctx : ℕ) (b : MappedBlock) → Completes (mmu_unmap_logical_block ctx (some b))
unfolding mmu_unmap_logical_block
unmap-Completes ctx b = on_runtime-Completes _ _ (unmap_logical_block-Settles ctx b)

unmap_all-SettledAt :
    (ctx : ℕ) (bs : List MappedBlock) (mmu : Handle)
    → SettledAt mmu
    → SettledAt (unmap_all ctx bs mmu)
unfolding unmap_all
unmap_all-SettledAt ctx [] mmu h = h
unmap_all-SettledAt ctx (b ∷ bs) mmu h =
    unmap_all-SettledAt ctx bs _ ((unmap-Completes ctx b).completes mmu h).0

map_next-Completes :
    (rest : List MappedBlock → Call (List MappedBlock)) (ctx : ℕ) (mapped : List MappedBlock)
    (r : Result MappedBlock) (mmu : Handle)
    → ((bs : List MappedBlock) → Completes (rest bs))
    → SettledAt mmu × (returns r ≡ true)
    → let (r', mmu') = map_next rest ctx mapped (r, mmu) in SettledAt mmu' × (returns r' ≡ true)
map_next-Completes rest ctx mapped (ok b) mmu k h = (k (mapped ++ b ∷ [])).completes mmu h.0
map_next-Completes rest ctx mapped (err e) mmu k h = (unmap_all-SettledAt ctx mapped mmu h.0, refl)
map_next-Completes rest ctx mapped stuck mmu k h = absurd (cc (h.1))

map_each-Completes :
    (ctx map_flags : ℕ) (lbs : List ℕ) (mapped : List MappedBlock)
    → Completes (map_each ctx map_flags lbs mapped)
unfolding map_each
map_each-Completes ctx map_flags [] mapped = record { completes = λ mmu h. (h, refl) }
map_each-Completes ctx map_flags (lb ∷ lbs) mapped = record {
  completes = λ mmu h.
      map_next-Completes (map_each ctx map_flags lbs) ctx mapped _ _
        (map_each-Completes ctx map_flags lbs) ((map-Completes ctx lb map_flags).completes mmu h);
}

first_error-returns :
    (first r : Result (Unit {0}))
    → returns first ≡ true
    → returns r ≡ true
    → returns (first_error first r) ≡ true
first_error-returns (ok u) r f h = h
first_error-returns (err e) r f h = refl
first_error-returns stuck r f h = f

unmap_each-completes :
    (ctx : ℕ) (bs : List MappedBlock) (first : Result (Unit {0})) (mmu : Handle)
    → returns first ≡ true
    → SettledAt mmu
    → SettledAt (unmap_each ctx bs first mmu).1 × (returns (unmap_each ctx bs first mmu).0 ≡ true)
unfolding unmap_each
unmap_each-completes ctx [] first mmu f h = (h, f)
unmap_each-completes ctx (b ∷ bs) first mmu f h =
    let one = (unmap-Completes ctx b).completes mmu h in
    unmap_each-completes ctx bs _ _ (first_error-returns first _ f one.1) one.0

unmap_each-Completes : (ctx : ℕ) (bs : List MappedBlock) → Completes (unmap_each ctx bs (ok tt))
unmap_each-Completes ctx bs = record {
  completes = λ mmu h. unmap_each-completes ctx bs (ok tt) mmu refl h;
}

map_blocks-Completes :
    (ctx : ℕ) (lbs : List ℕ) (map_flags : ℕ)
    → Completes (mmu_map_logical_blocks ctx ptr lbs map_flags ptr)
unfolding mmu_map_logical_blocks
map_blocks-Completes ctx lbs map_flags = search (completes_rules, map_each-Completes) depth 20

unmap_blocks-Completes :
    (ctx : ℕ) (bs : List MappedBlock) → Completes (mmu_unmap_logical_blocks ctx (some bs))
unfolding mmu_unmap_logical_blocks
unmap_blocks-Completes ctx bs = Completes-unless_null _ _ (unmap_each-Completes ctx bs)

create-Completes : Completes (mmu_create_context ptr)
unfolding mmu_create_context
create-Completes = search (completes_rules, create_context-Settles) depth 20

fork-Completes : (ctx : ℕ) → Completes (mmu_fork_context ctx ptr)
unfolding mmu_fork_context
fork-Completes ctx = search (completes_rules, fork_context-Settles) depth 20

prepare-Completes : (ctx lb : ℕ) → Completes (mmu_prepare_block_for_write ctx lb ptr)
unfolding mmu_prepare_block_for_write
prepare-Completes ctx lb = search (completes_rules, prepare_block_for_write-Settles) depth 20

allocate-Completes : (ctx n : ℕ) → Completes (mmu_allocate_blocks ctx n)
unfolding mmu_allocate_blocks
allocate-Completes ctx n = on_runtime-Completes _ _ (allocate_blocks-Settles ctx n)

release-Completes : (ctx lb : ℕ) → Completes (mmu_release_logical_block ctx lb)
unfolding mmu_release_logical_block
release-Completes ctx lb = on_runtime-Completes _ _ (release_logical_block-Settles ctx lb)

remap-Completes : (ctx lb : ℕ) (id : ℤ) (t : Tier) → Completes (mmu_test_update_mapping ctx lb id t)
unfolding mmu_test_update_mapping
remap-Completes ctx lb id t = on_runtime-Completes _ _ (update_mapping-Settles ctx lb id t)

destroy-SettledAt :
    (ctx : ℕ) (mmu : Handle) → SettledAt mmu → SettledAt (mmu_destroy_context ctx mmu)
unfolding mmu_destroy_context
destroy-SettledAt ctx none h = h
destroy-SettledAt ctx (some rt) h = destroy_context-Settled ctx rt h

write-SettledAt :
    (q : PagePtr) (size : ℕ) (bytes : Page) (mmu : Handle)
    → SettledAt mmu
    → SettledAt (on_handle (client_write q size bytes) mmu)
write-SettledAt q size bytes none h = h
write-SettledAt q size bytes (some rt) h =
    Calm-SettledBut (negsuc 0) rt (client_write q size bytes rt) h (ground arith) (ground arith)

-- Whether a call comes back; the destruction of a context, and a write to memory, have no result.
abbrev pub comes_back : Action → Handle → Bool
comes_back Action.create mmu = returns (mmu_create_context ptr mmu).0
comes_back (Action.destroy ctx) mmu = true
comes_back (Action.fork ctx) mmu = returns (mmu_fork_context ctx ptr mmu).0
comes_back (Action.allocate ctx n) mmu = returns (mmu_allocate_blocks ctx n mmu).0
comes_back (Action.release ctx lb) mmu = returns (mmu_release_logical_block ctx lb mmu).0
comes_back (Action.prepare ctx lb) mmu = returns (mmu_prepare_block_for_write ctx lb ptr mmu).0
comes_back (Action.map_block ctx lb map_flags) mmu =
    returns (mmu_map_logical_block ctx lb map_flags ptr mmu).0
comes_back (Action.map_blocks ctx lbs map_flags) mmu =
    returns (mmu_map_logical_blocks ctx ptr lbs map_flags ptr mmu).0
comes_back (Action.unmap_block ctx b) mmu = returns (mmu_unmap_logical_block ctx (some b) mmu).0
comes_back (Action.unmap_blocks ctx bs) mmu = returns (mmu_unmap_logical_blocks ctx (some bs) mmu).0
comes_back (Action.remap ctx lb id tier) mmu =
    returns (mmu_test_update_mapping ctx lb id tier mmu).0
comes_back (Action.write q size bytes) mmu = true

-- Every call, of any arguments, keeps the runtime settled and comes back.
pub perform-settles :
    (c : Action) (mmu : Handle)
    → SettledAt mmu
    → SettledAt (perform c mmu) × (comes_back c mmu ≡ true)
perform-settles Action.create mmu h = create-Completes.completes mmu h
perform-settles (Action.destroy ctx) mmu h = (destroy-SettledAt ctx mmu h, refl)
perform-settles (Action.fork ctx) mmu h = (fork-Completes ctx).completes mmu h
perform-settles (Action.allocate ctx n) mmu h = (allocate-Completes ctx n).completes mmu h
perform-settles (Action.release ctx lb) mmu h = (release-Completes ctx lb).completes mmu h
perform-settles (Action.prepare ctx lb) mmu h = (prepare-Completes ctx lb).completes mmu h
perform-settles (Action.map_block ctx lb map_flags) mmu h =
    (map-Completes ctx lb map_flags).completes mmu h
perform-settles (Action.map_blocks ctx lbs map_flags) mmu h =
    (map_blocks-Completes ctx lbs map_flags).completes mmu h
perform-settles (Action.unmap_block ctx b) mmu h = (unmap-Completes ctx b).completes mmu h
perform-settles (Action.unmap_blocks ctx bs) mmu h = (unmap_blocks-Completes ctx bs).completes mmu h
perform-settles (Action.remap ctx lb id tier) mmu h =
    (remap-Completes ctx lb id tier).completes mmu h
perform-settles (Action.write q size bytes) mmu h = (write-SettledAt q size bytes mmu h, refl)
