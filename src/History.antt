-- ===== src/History.antt =====
-- Histories of calls: which calls a client makes, in any order, with what it writes to pages of L1
-- in between, and that an invariant which every handler keeps is kept by every step.
use mmu.Prelude.{
  ℕ, ◌+◌, ◌*◌, ◌-◌, ℤ, Bool, ◌&&◌, List, [], ◌∷◌, ◌++◌, none, some, leb, ltb, ◌==◌, if◌then◌else◌,
}
use mmu.Types.{PagePtr, Error, OutPtr, ptr, Tier, Result, ok, err, stuck, MappedBlock}
use mmu.Exec.{Exec, fail}
use mmu.Exec.Keeps.{Keeps, Order, Keeps-bind, Keeps-fail_if, keeps_rules}
use mmu.ChunkPool.{Page}
use mmu.Runtime.{Runtime}
use mmu.Api.{
  Handle, Call, on_runtime, mmu_create_context, mmu_destroy_context, mmu_fork_context,
  mmu_allocate_blocks, mmu_release_logical_block, mmu_prepare_block_for_write, create_context,
  fork_context, destroy_context, allocate_blocks, release_logical_block, prepare_block_for_write,
}
use mmu.Api.Mapping.{
  mmu_map_logical_block, mmu_map_logical_blocks, mmu_unmap_logical_block, mmu_unmap_logical_blocks,
  map_each, map_next, unmap_all, unmap_each, unless_null, map_logical_block, unmap_logical_block,
}
use mmu.Api.TestApi.{mmu_test_update_mapping, update_mapping}

-- The calls that may change the state, and a write of the client's to a page of L1, such as the one
-- that a map gave it. Output arguments are not null.
pub data Action : Type 0 where
  create : Action
  destroy fork : ℕ → Action
  allocate release prepare : ℕ → ℕ → Action
  map_block : ℕ → ℕ → ℕ → Action
  map_blocks : ℕ → List ℕ → ℕ → Action
  unmap_block : ℕ → MappedBlock → Action
  unmap_blocks : ℕ → List MappedBlock → Action
  remap : ℕ → ℕ → ℤ → Tier → Action
  write : PagePtr → ℕ → Page → Action

-- Whether a write of `size` bytes from the start of page `q` reaches byte `k` of page `r`: the pages
-- of a chunk are contiguous, so that what exceeds `q` goes to the pages behind it.
abbrev pub reaches : ℕ → PagePtr → ℕ → PagePtr → ℕ → Bool
reaches block_size q size r k =
    q.chunk == r.chunk
    && (leb (q.block * block_size) (r.block * block_size + k)
        && ltb (r.block * block_size + k) (q.block * block_size + size))

-- The client stores `size` bytes from the start of page `q` on.
abbrev pub client_write : PagePtr → ℕ → Page → Runtime → Runtime
client_write q size bytes rt =
    let block_size = rt.config.block_size_bytes in
    record rt {
      l1_pool = record rt.l1_pool {
        memory = λ r k.
            if reaches block_size q size r k
            then bytes (r.block * block_size + k - q.block * block_size)
            else rt.l1_pool.memory r k;
      };
    }

abbrev pub on_handle : (Runtime → Runtime) → Handle → Handle
on_handle f none = none
on_handle f (some rt) = some (f rt)

abbrev pub perform : Action → Handle → Handle
perform create mmu = (mmu_create_context ptr mmu).1
perform (destroy ctx) mmu = mmu_destroy_context ctx mmu
perform (fork ctx) mmu = (mmu_fork_context ctx ptr mmu).1
perform (allocate ctx n) mmu = (mmu_allocate_blocks ctx n mmu).1
perform (release ctx lb) mmu = (mmu_release_logical_block ctx lb mmu).1
perform (prepare ctx lb) mmu = (mmu_prepare_block_for_write ctx lb ptr mmu).1
perform (map_block ctx lb flags) mmu = (mmu_map_logical_block ctx lb flags ptr mmu).1
perform (map_blocks ctx lbs flags) mmu = (mmu_map_logical_blocks ctx ptr lbs flags ptr mmu).1
perform (unmap_block ctx b) mmu = (mmu_unmap_logical_block ctx (some b) mmu).1
perform (unmap_blocks ctx bs) mmu = (mmu_unmap_logical_blocks ctx (some bs) mmu).1
perform (remap ctx lb id tier) mmu = (mmu_test_update_mapping ctx lb id tier mmu).1
perform (write q size bytes) mmu = on_handle (client_write q size bytes) mmu

-- The steps of a client, one after the other.
abbrev pub performs : List Action → Handle → Handle
performs [] mmu = mmu
performs (c ∷ cs) mmu = performs cs (perform c mmu)

-- A property of what a handle points to.
abbrev pub At : (Runtime → Type 0) → Handle → Type 0
At P none = Unit
At P (some rt) = P rt

-- The handlers keep a property of the runtime, but for an allocation, which may need a condition.
pub record Handlers (P : Runtime → Type 0) : Type 0 where
  pub create_context : Keeps (λ rt rt'. P rt → P rt') create_context
  pub destroy_context : (ctx : ℕ) (rt : Runtime) → P rt → P (destroy_context ctx rt)
  pub fork_context : (ctx : ℕ) → Keeps (λ rt rt'. P rt → P rt') (fork_context ctx)
  pub release_block : (ctx lb : ℕ) → Keeps (λ rt rt'. P rt → P rt') (release_logical_block ctx lb)
  pub prepare_block : (ctx lb : ℕ) → Keeps (λ rt rt'. P rt → P rt') (prepare_block_for_write ctx lb)
  pub map_block :
      (ctx lb flags : ℕ) → Keeps (λ rt rt'. P rt → P rt') (map_logical_block ctx lb flags)
  pub unmap_block :
      (ctx : ℕ) (b : MappedBlock) → Keeps (λ rt rt'. P rt → P rt') (unmap_logical_block ctx b)
  pub update_mapping :
      (ctx lb : ℕ) (id : ℤ) (t : Tier) → Keeps (λ rt rt'. P rt → P rt') (update_mapping ctx lb id t)
  pub client_write :
      (q : PagePtr) (size : ℕ) (bytes : Page) (rt : Runtime)
      → P rt
      → P (client_write q size bytes rt)

-- If the call is an allocation, it keeps the property.
abbrev pub Allocates : (Runtime → Type 0) → Action → Handle → Type 0
Allocates P (allocate ctx n) (some rt) = P rt → P (allocate_blocks ctx n rt).1
Allocates P _ mmu = Unit

module _ {P : Runtime → Type 0} (k : Handlers P) where
  abbrev Carries : Handle → Handle → Type 0
  Carries mmu mmu' = At P mmu → At P mmu'

  Carries-order : Order Carries
  Carries-order = record { rel_refl = λ s h. h; rel_trans = λ s t u f g h. g (f h) }

  on_runtime-Keeps :
      {A : Type 0} (e : Error) (m : Exec Runtime A)
      → Keeps (λ rt rt'. P rt → P rt') m
      → Keeps Carries (on_runtime e m)
  on_runtime-Keeps e m k = record { at = elim [ none ↦ λ h. h | some rt ↦ λ h. k.at rt h ] }

  fail-Keeps : {A : Type 0} (e : Error) → Keeps Carries (fail {A = A} e)
  unfolding fail
  fail-Keeps e = record { at = λ s h. h }

  unless_null-Keeps :
      {A : Type 0} (e : Error) (m : Call A) → Keeps Carries m → Keeps Carries (unless_null e m)
  unless_null-Keeps e m k = record { at = elim [ none ↦ λ h. h | some rt ↦ λ h. k.at (some rt) h ] }

  map-Keeps : (ctx lb flags : ℕ) (o : OutPtr) → Keeps Carries (mmu_map_logical_block ctx lb flags o)
  unfolding mmu_map_logical_block
  map-Keeps ctx lb flags o =
      search (keeps_rules, Carries-order, on_runtime-Keeps, k.map_block) depth 20

  unmap-Keeps : (ctx : ℕ) (b : MappedBlock) → Keeps Carries (mmu_unmap_logical_block ctx (some b))
  unfolding mmu_unmap_logical_block
  unmap-Keeps ctx b = on_runtime-Keeps _ _ (k.unmap_block ctx b)

  unmap_all-Carries :
      (ctx : ℕ) (bs : List MappedBlock) (mmu : Handle) → Carries mmu (unmap_all ctx bs mmu)
  unfolding unmap_all
  unmap_all-Carries ctx [] mmu h = h
  unmap_all-Carries ctx (b ∷ bs) mmu h = unmap_all-Carries ctx bs _ ((unmap-Keeps ctx b).at mmu h)

  map_next-Carries :
      (rest : List MappedBlock → Call (List MappedBlock)) (ctx : ℕ) (mapped : List MappedBlock)
      (r : Result MappedBlock) (mmu : Handle)
      → ((bs : List MappedBlock) → Keeps Carries (rest bs))
      → Carries mmu (map_next rest ctx mapped (r, mmu)).1
  map_next-Carries rest ctx mapped (ok b) mmu k h = (k (mapped ++ b ∷ [])).at mmu h
  map_next-Carries rest ctx mapped (err e) mmu k h = unmap_all-Carries ctx mapped mmu h
  map_next-Carries rest ctx mapped stuck mmu k h = h

  map_each-Keeps :
      (ctx flags : ℕ) (lbs : List ℕ) (mapped : List MappedBlock)
      → Keeps Carries (map_each ctx flags lbs mapped)
  unfolding map_each
  map_each-Keeps ctx flags [] mapped = record { at = λ mmu h. h }
  map_each-Keeps ctx flags (lb ∷ lbs) mapped = record {
    at = λ mmu h.
        map_next-Carries (map_each ctx flags lbs) ctx mapped _ _ (map_each-Keeps ctx flags lbs)
          ((map-Keeps ctx lb flags ptr).at mmu h);
  }

  unmap_each-Keeps :
      (ctx : ℕ) (bs : List MappedBlock) (first : Result (Unit {0}))
      → Keeps Carries (unmap_each ctx bs first)
  unfolding unmap_each
  unmap_each-Keeps ctx [] first = record { at = λ mmu h. h }
  unmap_each-Keeps ctx (b ∷ bs) first = record {
    at = λ mmu h. (unmap_each-Keeps ctx bs _).at _ ((unmap-Keeps ctx b).at mmu h);
  }

  -- The batches, with their checks.
  map_blocks-Keeps :
      (ctx : ℕ) (lbs : List ℕ) (flags : ℕ)
      → Keeps Carries (mmu_map_logical_blocks ctx ptr lbs flags ptr)
  unfolding mmu_map_logical_blocks
  map_blocks-Keeps ctx lbs flags =
      search (keeps_rules, Carries-order, unless_null-Keeps, map_each-Keeps) depth 20

  unmap_blocks-Keeps :
      (ctx : ℕ) (bs : List MappedBlock) → Keeps Carries (mmu_unmap_logical_blocks ctx (some bs))
  unfolding mmu_unmap_logical_blocks
  unmap_blocks-Keeps ctx bs = unless_null-Keeps _ _ (unmap_each-Keeps ctx bs (ok tt))

  create-Keeps : Keeps Carries (mmu_create_context ptr)
  unfolding mmu_create_context
  create-Keeps =
      Keeps-bind Carries-order _ _ (Keeps-fail_if Carries-order _ _)
        λ _. on_runtime-Keeps _ _ k.create_context

  fork-Keeps : (ctx : ℕ) → Keeps Carries (mmu_fork_context ctx ptr)
  unfolding mmu_fork_context
  fork-Keeps ctx = search (keeps_rules, Carries-order, on_runtime-Keeps, k.fork_context) depth 20

  prepare-Keeps : (ctx lb : ℕ) → Keeps Carries (mmu_prepare_block_for_write ctx lb ptr)
  unfolding mmu_prepare_block_for_write
  prepare-Keeps ctx lb =
      search (keeps_rules, Carries-order, on_runtime-Keeps, k.prepare_block) depth 20

  release-Keeps : (ctx lb : ℕ) → Keeps Carries (mmu_release_logical_block ctx lb)
  unfolding mmu_release_logical_block
  release-Keeps ctx lb = on_runtime-Keeps _ _ (k.release_block ctx lb)

  remap-Keeps :
      (ctx lb : ℕ) (id : ℤ) (t : Tier) → Keeps Carries (mmu_test_update_mapping ctx lb id t)
  unfolding mmu_test_update_mapping
  remap-Keeps ctx lb id t = on_runtime-Keeps _ _ (k.update_mapping ctx lb id t)

  destroy-Carries : (ctx : ℕ) (mmu : Handle) → Carries mmu (mmu_destroy_context ctx mmu)
  unfolding mmu_destroy_context
  destroy-Carries ctx none h = h
  destroy-Carries ctx (some rt) h = k.destroy_context ctx rt h

  write-Carries :
      (q : PagePtr) (size : ℕ) (bytes : Page) (mmu : Handle)
      → Carries mmu (on_handle (client_write q size bytes) mmu)
  write-Carries q size bytes none h = h
  write-Carries q size bytes (some rt) h = k.client_write q size bytes rt h

  allocate-Carries :
      (ctx n : ℕ) (mmu : Handle)
      → Allocates P (allocate ctx n) mmu
      → Carries mmu (mmu_allocate_blocks ctx n mmu).1
  unfolding mmu_allocate_blocks
  allocate-Carries ctx n none fits h = h
  allocate-Carries ctx n (some rt) fits h = fits h

  pub perform-At : (c : Action) (mmu : Handle) → Allocates P c mmu → At P mmu → At P (perform c mmu)
  perform-At create mmu fits = create-Keeps.at mmu
  perform-At (destroy ctx) mmu fits = destroy-Carries ctx mmu
  perform-At (fork ctx) mmu fits = (fork-Keeps ctx).at mmu
  perform-At (allocate ctx n) mmu fits = allocate-Carries ctx n mmu fits
  perform-At (release ctx lb) mmu fits = (release-Keeps ctx lb).at mmu
  perform-At (prepare ctx lb) mmu fits = (prepare-Keeps ctx lb).at mmu
  perform-At (map_block ctx lb flags) mmu fits = (map-Keeps ctx lb flags ptr).at mmu
  perform-At (map_blocks ctx lbs flags) mmu fits = (map_blocks-Keeps ctx lbs flags).at mmu
  perform-At (unmap_block ctx b) mmu fits = (unmap-Keeps ctx b).at mmu
  perform-At (unmap_blocks ctx bs) mmu fits = (unmap_blocks-Keeps ctx bs).at mmu
  perform-At (remap ctx lb id tier) mmu fits = (remap-Keeps ctx lb id tier).at mmu
  perform-At (write q size bytes) mmu fits = write-Carries q size bytes mmu
