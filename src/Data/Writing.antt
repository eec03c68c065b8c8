-- ===== src/Data/Writing.antt =====
-- Mapping a logical block for writing as a whole: copy on write, promotion and pinning.
use mmu.Prelude.{
  ℕ, ◌<◌, ◌≤◌, ℤ, pos, negsuc, ◌≡◌, refl, sym, ap, ◌∙◌, arith, true, subst, ◌==ℤ◌, Option, some,
  List, u32_mod, inl, inr,
}
use mmu.Types.{OutPtr, ptr, Result, ok, err, stuck, PhysicalRoute, MappedBlock, Error}
use mmu.Exec.{pure, ◌>>=◌, continue}
use mmu.Accounts.Calls.{map_routed-Frames}
use mmu.Exec.Returns.{came, with_value, with_error}
use mmu.BlockManager
use mmu.PageTable
use mmu.Context
use mmu.Context.{Context}
use mmu.ChunkPool.{owner}
use mmu.Config.{Config, Host}
use mmu.Runtime.{Runtime, in_context, session}
use mmu.Paging.Pages.{Same}
use mmu.Residency.{ensure_resident_in_l1}
use mmu.Api.{mmu_init, resolve_routing, clone_if_moved, prepare_block_for_write}
use mmu.Api.Mapping.{map_routed, map_logical_block, has_write}
use mmu.History.{Action, performs}
use mmu.Settled.Blocks.{routed, prepare_block_for_write-Settles}
use mmu.Settled.Held.{Held, prepare_block_for_write-Held}
use mmu.Settled.Stranded.{Moved, prepare_block_for_write-Moved, clone_if_moved-Returns}
use mmu.ChunkPool.{Page}
use mmu.Prelude.{◌==◌, ◌==ℤ◌, false}
use mmu.History.{client_write}
use mmu.Data.Housed.Replacing.{map_logical_block-StaysOrderly}
use mmu.Data.Moves.{block_data, InUse}
use mmu.Data.Client.{written-elsewhere}
use mmu.Data.Sizes.{map_logical_block-SameConfig}
use mmu.Data.Reading.{map_routed-Reads}
use mmu.Data.Preparing.{Prepared}
use mmu.Data.Preparing.Histories.{prepare-Prepared}
use mmu.Data.Housed.Replacing.{Orderly, prepare_block_for_write-StaysOrderly}
use mmu.Data.Housed.History.{history-Orderly}

-- What a map for writing has done, of a logical block that physical block `x` stood for.
pub record Opened (x : ℤ) (a : Runtime) (r : Result MappedBlock) (b : Runtime) : Type 0 where
  pub opened_others :
      (j : ℕ) → InUse a j → Same a.config.block_size_bytes (block_data b j) (block_data a j)
  pub opened_data :
      (m : MappedBlock) (i : ℕ)
      → r ≡ ok m
      → x ≡ pos i
      → Same a.config.block_size_bytes (b.l1_pool.memory m.host_ptr) (block_data a i)
  pub opened_block :
      (m : MappedBlock)
      → r ≡ ok m
      → (n : ℕ) × (m.physical_block_id ≡ pos n)
        × (owner b.l1_pool n ≡ some m.host_ptr)
        × (BlockManager.ref_count b.l1_allocator (pos n) ≡ pos 1)

-- Where a preparation returns a block, so has the method of the context.
given :
    (route : PhysicalRoute) (id : ℤ) (r : Result ℤ) (s : Runtime)
    → (continue r (λ i. clone_if_moved route i >>= λ _. pure i) s).0 ≡ ok id
    → r ≡ ok id
unfolding ◌>>=◌ pure
given route id (ok i) s done =
    elim (came (clone_if_moved route i s).0 ((clone_if_moved-Returns route i).from s)) [
      | with_error x e ↦ absurd (cc (rw e at done))
      | with_value u e ↦ cc (rw e at done)
    ]
given route id (err e) s done = absurd (cc (done))
given route id stuck s done = absurd (cc (done))

prepared_entry :
    (ctx lb : ℕ) (rt : Runtime) (route : PhysicalRoute) (id : ℤ)
    → (resolve_routing ctx lb ptr rt).0 ≡ ok route
    → (prepare_block_for_write ctx lb rt).0 ≡ ok id
    → Moved ctx lb id (prepare_block_for_write ctx lb rt).0 (prepare_block_for_write ctx lb rt).1
unfolding prepare_block_for_write ◌>>=◌ in_context
prepared_entry ctx lb rt route id known done = elim (routed ctx lb rt) [
  | inl (e, failed) ↦ absurd (cc (known, ap (λ p. p.0) failed))
  | inr (c, r, found_route, found, int, at) ↦
      let gives : (Context.prepare_block_for_write (pos lb) ptr (session rt c)).0 ≡ ok id =
        given r id _ _ (rw (found_route, int, found) at done) in
      prepare_block_for_write-Moved ctx lb rt route id known (rw found gives)
]

-- The part after the preparation, on the block `id` that it returned.
routed-Opened :
    (x id : ℤ) (lb map_flags : ℕ) (a b : Runtime) (route : PhysicalRoute)
    → Prepared x a (ok id) b
    → Held a (ok id) b
    → Orderly b
    → route.physical_block_id ≡ id
    → Opened x a (map_routed lb map_flags route b).0 (map_routed lb map_flags route b).1
unfolding map_routed ◌>>=◌ ensure_resident_in_l1 BlockManager.is_valid
routed-Opened x (negsuc k) lb map_flags a b route p held h at = rw at (record {
  opened_others = p.prepared_others;
  opened_data = λ m i eq. absurd (cc (eq));
  opened_block = λ m eq. absurd (cc (eq));
})
routed-Opened x (pos n) lb map_flags a b route p held h at =
    let reads = map_routed-Reads n lb map_flags route b h.1.apart h.0.loose.bounded at in
    let frame = (map_routed-Frames lb map_flags route).at b in
    let wider : (k : ℕ) → k < a.config.block_size_bytes → k < b.config.block_size_bytes =
      λ k lt. omega (arith, lt, ap (λ c. c.block_size_bytes) held.held_config) in
    record {
      opened_others = λ j used k lt.
          reads.reads_intact.intact_data j (held.held_used j used) k (wider k lt)
          ∙ p.prepared_others j used k lt;
      opened_data = λ m i eq from k lt.
          reads.reads_data m eq (ap (λ z. z ==ℤ pos 0) (held.held_once n refl)) k (wider k lt)
          ∙ p.prepared_data i n from refl k lt;
      opened_block = λ m eq. (
        n,
        (reads.reads_page m eq).0,
        (reads.reads_page m eq).1,
        ap (λ x. BlockManager.ref_count x (pos n)) frame.same_allocator ∙ held.held_once n refl,
      );
    }

failed-Opened :
    (x : ℤ) (a b : Runtime) (r : Result ℤ) (e : Error) → Prepared x a r b → Opened x a (err e) b
failed-Opened x a b r e p = record {
  opened_others = p.prepared_others;
  opened_data = λ m i eq. absurd (cc (eq));
  opened_block = λ m eq. absurd (cc (eq));
}

same_entry :
    (c c' : Context) (lb : ℕ) (x y : ℤ)
    → some c ≡ some c'
    → PageTable.get c.page_table (pos lb) ptr ≡ some x
    → PageTable.get c'.page_table (pos lb) ptr ≡ some y
    → x ≡ y
same_entry c c' lb x y same at at' =
    let one : c ≡ c' = cc (same) in
    let here : PageTable.get c'.page_table (pos lb) ptr ≡ some x =
      ap (λ d. PageTable.get d.page_table (pos lb) ptr) (sym one) ∙ at in
    cc (here, at')

-- After the preparation has returned `id`.
resumed-Opened :
    (ctx lb map_flags : ℕ) (x id : ℤ) (a b : Runtime)
    → Prepared x a (ok id) b
    → Held a (ok id) b
    → Orderly b
    → Moved ctx lb id (ok id) b
    → let s = (resolve_routing ctx lb ptr >>= map_routed lb map_flags) b in Opened x a s.0 s.1
unfolding ◌>>=◌
resumed-Opened ctx lb map_flags x id a b p held h moved = elim (routed ctx lb b) [
  | inl (e, failed) ↦ rw failed (failed-Opened x a b (ok id) e p)
  | inr (c, r, done, found, int, at) ↦
      let (c', found', at') = moved.moved_entry in
      rw done (
        routed-Opened x id lb map_flags a b r p held h
          (same_entry c c' lb r.physical_block_id id (sym found ∙ found') at at'))
]

map_for_write-Opened :
    (ctx lb map_flags : ℕ) (rt : Runtime) (route : PhysicalRoute)
    → Orderly rt
    → (resolve_routing ctx lb ptr rt).0 ≡ ok route
    → has_write map_flags ≡ true
    → let s = map_logical_block ctx lb map_flags rt in Opened route.physical_block_id rt s.0 s.1
unfolding map_logical_block ◌>>=◌ pure
map_for_write-Opened ctx lb map_flags rt route h known write = elim (routed ctx lb rt) [
  | inl (e, failed) ↦ absurd (cc (known, ap (λ p. p.0) failed))
  | inr (c, r, done, found, int, at) ↦
      elim (came prepared.0 ((prepare_block_for_write-Settles ctx lb).settles rt h.0).1) [
        | with_error x e ↦
            rw (found, int, write, e)
              (failed-Opened route.physical_block_id rt prepared.1 prepared.0 x safe)
        | with_value id e ↦
            rw (found, int, write, e)
              (resumed-Opened ctx lb map_flags route.physical_block_id id rt prepared.1
                (subst (λ z. Prepared route.physical_block_id rt z prepared.1) e safe)
                (subst (λ z. Held rt z prepared.1) e (prepare_block_for_write-Held ctx lb rt h.0))
                ((prepare_block_for_write-StaysOrderly ctx lb).at rt h)
                (subst (λ z. Moved ctx lb id z prepared.1) e
                  (prepared_entry ctx lb rt route id known e)))
      ]
]
  where
    prepared : Result ℤ × Runtime
    prepared = prepare_block_for_write ctx lb rt

    safe : Prepared route.physical_block_id rt prepared.0 prepared.1
    safe = prepare-Prepared ctx lb rt route h known

module _ (h : Host) (c : Option Config) (o : OutPtr) (rt : Runtime)
    (started : mmu_init h c o ≡ ok rt) (narrow : rt.config.l1_block_count < u32_mod)
    (calls : List Action) (rt' : Runtime) (made : performs calls (some rt) ≡ some rt') where
  -- After any history of calls on a new runtime, whose number of blocks is a uint32_t: if a logical
  -- block has a route, then mapping it for writing, whatever the result is, keeps the bytes of every
  -- block that has references. On success the pointer points to the bytes that the routed block had,
  -- and is the L1 page of a block that has exactly one reference.
  pub performs-Opened :
      (ctx lb map_flags : ℕ) (route : PhysicalRoute)
      → (resolve_routing ctx lb ptr rt').0 ≡ ok route
      → has_write map_flags ≡ true
      → let s = map_logical_block ctx lb map_flags rt' in Opened route.physical_block_id rt' s.0 s.1
  performs-Opened ctx lb map_flags route =
      map_for_write-Opened ctx lb map_flags rt' route
        (history-Orderly h c o rt started narrow calls rt' made)

  -- After any history of calls on a new runtime, whose number of blocks is a uint32_t: if a logical
  -- block has a route and is mapped for writing with success, then whatever the client writes from
  -- the pointer on, of at most `block_size_bytes` bytes, every other block that had references has
  -- the bytes that it had before the map.
  pub performs-isolates :
      (ctx lb map_flags : ℕ) (route : PhysicalRoute) (m : MappedBlock) (size : ℕ) (bytes : Page)
      (j : ℕ)
      → (resolve_routing ctx lb ptr rt').0 ≡ ok route
      → has_write map_flags ≡ true
      → (map_logical_block ctx lb map_flags rt').0 ≡ ok m
      → InUse rt' j
      → (m.physical_block_id ==ℤ pos j) ≡ false
      → size ≤ rt'.config.block_size_bytes
      → Same rt'.config.block_size_bytes
          (block_data
            (client_write m.host_ptr size bytes (map_logical_block ctx lb map_flags rt').1)
            j)
          (block_data rt' j)
  performs-isolates ctx lb map_flags route m size bytes j known write mapped used other fits k lt =
      let opened = performs-Opened ctx lb map_flags route known write in
      let (n, block, own, once) = opened.opened_block m mapped in
      let ne : (n == j) ≡ false = ground (arith, other, block) in
      let orderly =
        (map_logical_block-StaysOrderly ctx lb map_flags).at rt'
          (history-Orderly h c o rt started narrow calls rt' made) in
      let same : (map_logical_block ctx lb map_flags rt').1.config ≡ rt'.config =
        (map_logical_block-SameConfig ctx lb map_flags).at rt' in
      let size_eq = ap (λ c. c.block_size_bytes) same in
      written-elsewhere n j m.host_ptr size bytes (map_logical_block ctx lb map_flags rt').1 own
        orderly.1.apart ne (omega (arith, fits, size_eq)) k (omega (arith, lt, size_eq))
      ∙ opened.opened_others j used k lt
