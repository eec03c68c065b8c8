-- ===== src/Settled/Blocks.antt =====
-- The calls that take or give back references keep a runtime settled: prepare and release.
use mmu.Prelude.{
  ℕ, ℤ, pos, negsuc, ◌==ℤ◌, true, false, some, ◌≡◌, refl, sym, ap, ◌∙◌, inl, inr, ◌⊎◌, arith,
  get_elem?, get_elem?-some, lt_of_get_elem?, Bool-cases, Option-cases, ltb, int_max, ==ℤ_iff,
  index, ◌*◌,
}
use mmu.Types.{
  Result, ok, err, stuck, Error, unallocated, internal, bad_handle, invalid_argument, PhysicalRoute,
  ptr, l2,
}
use mmu.Exec.{pure, modify, ◌>>=◌, continue}
use mmu.Exec.Returns.{returns}
use mmu.BlockDirectory
use mmu.BlockDirectory.{BlockDirectory, BlockMeta}
use mmu.PageTable
use mmu.Context
use mmu.Context.{Context, Session}
use mmu.Context.Freeing.{
  Releasing, Preparing, release_logical_block-Releasing, prepare_block_for_write-Preparing,
}
use mmu.Runtime.{Runtime, find_context, store, session, directory, in_context}
use mmu.Frame.{directory-Frames}
use mmu.Residency.Calm.{flags}
use mmu.Residency.Fresh.{initialize-Calm}
use mmu.Api.{
  resolve_routing, release_logical_block, prepare_block_for_write, clone_if_moved, forget_if_unused,
  to_int,
}
use mmu.Settled.{Settled, SettledBut, Calm-SettledBut, store-SettledBut, forget_if_unused-Settled}
use mmu.Settled.Rules.{Settles, Settles-pure, continue-Settles}
use mmu.Settled.Paging.{tier-Calm, clone_block_data_for_cow-Settles}

-- In a settled runtime a free block is not resident.
pub free_out :
    (n : ℕ) (rt : Runtime)
    → Settled rt
    → get_elem? rt.l1_allocator.ref_counts n ≡ some 0
    → get_elem? (flags rt) n ≡ some false
free_out n rt h free =
    let (v, e) =
      get_elem?-some (flags rt) n
        (omega (arith, lt_of_get_elem? rt.l1_allocator.ref_counts n free, h.loose.blocks)) in
    elim (Bool-cases v) [
      | inl t ↦ absurd (ground (arith, h.backed n refl (e ∙ ap some t), free))
      | inr f ↦ e ∙ ap some f
    ]

-- What a successful routing has read from the page table.
pub resolve_routing-get :
    (c : Context) (d : BlockDirectory) (lb : ℤ)
    → ((e : Error) × (Context.resolve_routing c d lb ptr ≡ err e))
      ⊎ ((r : PhysicalRoute) × (Context.resolve_routing c d lb ptr ≡ ok r)
          × (PageTable.get c.page_table lb ptr ≡ some r.physical_block_id)
          × (m : BlockMeta) × (BlockDirectory.get d r.physical_block_id ≡ some m)
          × (r.tier ≡ m.tier))
unfolding Context.resolve_routing BlockDirectory.snapshot
resolve_routing-get c d lb = elim (Option-cases (PageTable.get c.page_table lb ptr)) [
  | inl e ↦ inl (unallocated, rw e refl)
  | inr (x, e) ↦ elim (Bool-cases (x ==ℤ negsuc 0)) [
    | inl t ↦ inl (unallocated, rw (e, t) refl)
    | inr f ↦ elim (Option-cases (BlockDirectory.get d x)) [
      | inl m ↦ inl (internal, rw (e, f, m) refl)
      | inr (meta, m) ↦ elim (Bool-cases meta.allocated) [
        | inr a ↦ inl (internal, rw (e, f, m, a) refl)
        | inl a ↦ inr (
          record {
            tier = meta.tier;
            physical_block_id = x;
            byte_offset = index x * c.block_size_bytes;
          },
          rw (e, f, m, a) refl,
          e,
          meta,
          m,
          refl,
        )
      ]
    ]
  ]
]

-- The tier of a route is that of its block in the directory.
pub routed_meta :
    (ctx lb : ℕ) (rt : Runtime) (r : PhysicalRoute)
    → (resolve_routing ctx lb ptr rt).0 ≡ ok r
    → (m : BlockMeta) × (BlockDirectory.get rt.block_directory r.physical_block_id ≡ some m)
      × (r.tier ≡ m.tier)
unfolding resolve_routing ◌>>=◌
routed_meta ctx lb rt r done = elim (Option-cases (find_context ctx rt)) [
  | inl e ↦ absurd (cc (rw e at done))
  | inr (c, e) ↦ elim (Bool-cases (ltb int_max lb)) [
    | inl large ↦ absurd (cc (rw (e, large) at done))
    | inr small ↦ elim (resolve_routing-get c rt.block_directory (pos lb)) [
      | inl (x, failed) ↦ absurd (cc (rw (e, small, failed) at done))
      | inr (r', done', at, m, held, tier) ↦
          let same : r' ≡ r = cc (rw (e, small, done') at done) in
          (
            m,
            ap (λ x. BlockDirectory.get rt.block_directory x.physical_block_id) (sym same) ∙ held,
            ap (λ x. x.tier) (sym same) ∙ tier,
          )
    ]
  ]
]

-- A routing fails and changes nothing, or names the context, the entry and its block.
pub routed :
    (ctx lb : ℕ) (rt : Runtime)
    → ((e : Error) × (resolve_routing ctx lb ptr rt ≡ (err e, rt)))
      ⊎ ((c : Context) × (r : PhysicalRoute) × (resolve_routing ctx lb ptr rt ≡ (ok r, rt))
          × (find_context ctx rt ≡ some c)
          × (to_int lb ≡ some (pos lb))
          × (PageTable.get c.page_table (pos lb) ptr ≡ some r.physical_block_id))
unfolding resolve_routing ◌>>=◌
routed ctx lb rt = elim (Option-cases (find_context ctx rt)) [
  | inl e ↦ inl (bad_handle, rw e refl)
  | inr (c, e) ↦ elim (Bool-cases (ltb int_max lb)) [
    | inl large ↦ inl (invalid_argument, rw (e, large) refl)
    | inr small ↦ elim (resolve_routing-get c rt.block_directory (pos lb)) [
      | inl (x, failed) ↦ inl (x, rw (e, small, failed) refl)
      | inr (r, done, at, m, held, tier) ↦
          inr (c, r, rw (e, small, done) refl, e, rw small refl, at)
    ]
  ]
]

pub fresh-SettledBut :
    (x : ℤ) (n : ℕ) (rt : Runtime)
    → SettledBut x rt
    → get_elem? (flags rt) n ≡ some false
    → SettledBut x (directory (λ d. BlockDirectory.initialize_fresh_block d (pos n)) rt)
fresh-SettledBut x n rt h out =
    Calm-SettledBut x rt _ h
      (directory-Frames (λ d. BlockDirectory.initialize_fresh_block d (pos n)) rt)
      (initialize-Calm n rt out)

-- The data of the old block goes to a new one that is not resident.
clone_new-settles :
    (route : PhysicalRoute) (n : ℕ) (rt : Runtime)
    → (pos n ==ℤ route.physical_block_id) ≡ false
    → Settled rt
    → get_elem? (flags rt) n ≡ some false
    → Settled (clone_if_moved route (pos n) rt).1
      × (returns (clone_if_moved route (pos n) rt).0 ≡ true)
unfolding ◌>>=◌
clone_new-settles route n rt moved h out =
    let opened = directory (λ d. BlockDirectory.initialize_fresh_block d (pos n)) rt in
    let tiered = directory (λ d. BlockDirectory.set_tier d (pos n) l2) opened in
    let s : Settled opened = fresh-SettledBut (negsuc 0) n rt h out in
    let t : Settled tiered =
      Calm-SettledBut (negsuc 0) opened tiered s
        (directory-Frames (λ d. BlockDirectory.set_tier d (pos n) l2) opened)
        (tier-Calm (pos n) l2 opened) in
    rw moved (
      (clone_block_data_for_cow-Settles route.physical_block_id route.tier (pos n)).settles tiered
        t)

-- After the method of the context: what its result allows.
abbrev after_release : ℤ → Result (Unit {0}) → Runtime → Result (Unit {0}) × Runtime
after_release x r rt = continue r (λ _. modify (forget_if_unused x)) rt

after_release-settles :
    (x : ℤ) (ctx : ℕ) (rt : Runtime) (r : Result (Unit {0})) (s : Session)
    → Settled rt
    → Releasing x rt.l1_allocator r s.manager
    → Settled (after_release x r (store ctx rt s)).1
      × (returns (after_release x r (store ctx rt s)).0 ≡ true)
unfolding modify
after_release-settles x ctx rt (ok u) s h p =
    (forget_if_unused-Settled x (store ctx rt s) (store-SettledBut x ctx rt s h p), refl)
after_release-settles x ctx rt (err e) s h p = (store-SettledBut (negsuc 0) ctx rt s h p, refl)
after_release-settles x ctx rt stuck s h p = absurd (cc)

pub release_logical_block-Settles : (ctx lb : ℕ) → Settles (release_logical_block ctx lb)
unfolding release_logical_block ◌>>=◌ in_context
release_logical_block-Settles ctx lb = record {
  settles = λ rt h. elim (routed ctx lb rt) [
    | inl (e, failed) ↦ rw failed (h, refl)
    | inr (c, r, done, found, int, at) ↦
        rw (done, int, found)
          (after_release-settles r.physical_block_id ctx rt _ _ h (
            release_logical_block-Releasing (pos lb) r.physical_block_id (session rt c)
              h.loose.valid at))
  ];
}

abbrev after_prepare : PhysicalRoute → Result ℤ → Runtime → Result ℤ × Runtime
after_prepare route r rt = continue r (λ id. clone_if_moved route id >>= λ _. pure id) rt

prepared-settles :
    (route : PhysicalRoute) (ctx : ℕ) (rt : Runtime) (id : ℤ) (s : Session)
    → Settled rt
    → Preparing route.physical_block_id rt.l1_allocator (ok id) s.manager
    → Settled (clone_if_moved route id (store ctx rt s)).1
      × (returns (clone_if_moved route id (store ctx rt s)).0 ≡ true)
unfolding pure
prepared-settles route ctx rt id s h (spared, origin) =
    let stored : Settled (store ctx rt s) = store-SettledBut (negsuc 0) ctx rt s h spared in
    elim (Bool-cases (id ==ℤ route.physical_block_id)) [
      | inl same ↦ rw same (stored, refl)
      | inr moved ↦ elim origin [
        | inl eq ↦ absurd (ground (arith, moved, ==ℤ_iff id route.physical_block_id, eq))
        | inr (n, eq, free) ↦
            let moved' : (pos n ==ℤ route.physical_block_id) ≡ false = rw (← eq) moved in
            rw eq (clone_new-settles route n (store ctx rt s) moved' stored (free_out n rt h free))
      ]
    ]

after_prepare-settles :
    (route : PhysicalRoute) (ctx : ℕ) (rt : Runtime) (r : Result ℤ) (s : Session)
    → Settled rt
    → Preparing route.physical_block_id rt.l1_allocator r s.manager
    → Settled (after_prepare route r (store ctx rt s)).1
      × (returns (after_prepare route r (store ctx rt s)).0 ≡ true)
unfolding ◌>>=◌
after_prepare-settles route ctx rt (ok id) s h p =
    continue-Settles (clone_if_moved route id (store ctx rt s)).0 (λ _. pure id) _
      (prepared-settles route ctx rt id s h p) (λ _. Settles-pure id)
after_prepare-settles route ctx rt (err e) s h p = (store-SettledBut (negsuc 0) ctx rt s h p, refl)
after_prepare-settles route ctx rt stuck s h p = absurd (cc)

pub prepare_block_for_write-Settles : (ctx lb : ℕ) → Settles (prepare_block_for_write ctx lb)
unfolding prepare_block_for_write ◌>>=◌ in_context
prepare_block_for_write-Settles ctx lb = record {
  settles = λ rt h. elim (routed ctx lb rt) [
    | inl (e, failed) ↦ rw failed (h, refl)
    | inr (c, r, done, found, int, at) ↦
        rw (done, int, found)
          (after_prepare-settles r ctx rt _ _ h (
            prepare_block_for_write-Preparing (pos lb) r.physical_block_id (session rt c)
              h.loose.valid at))
  ];
}
