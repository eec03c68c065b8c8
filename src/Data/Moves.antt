-- ===== src/Data/Moves.antt =====
-- Where the bytes of a block stand, and that eviction keeps them.
use mmu.Prelude.{
  ℕ, zero, suc, ◌<◌, ℤ, pos, negsuc, ◌==ℤ◌, ◌≡◌, refl, ap, ◌∙◌, subst, arith, Bool, true, false,
  Option, none, some, ◌==◌, get_elem?, set, get_elem?-set_self, get_elem?-set_ne, lt_of_get_elem?,
  Bool-cases, Option-cases, inl, inr,
}
use mmu.Types.{Result, l2}
use mmu.Exec.{Exec, ◌>>=◌}
use mmu.Exec.Keeps.{Keeps, Order, Keeps-bind, Keeps-gets, Keeps-if, Keeps-pure, keeps_rules}
use mmu.Exec.Returns.{came, with_value, with_error}
use mmu.BlockManager
use mmu.BlockDirectory.{BlockMeta}
use mmu.ChunkPool.{release_page, Page}
use mmu.Runtime.{Runtime, Pool, pool_of, block_meta_for, write_meta}
use mmu.Paging.{sync_l1_to_l2}
use mmu.Paging.Apart.{release_page-IsApart}
use mmu.Paging.Pages.{content, Same, release_page-content}
use mmu.Residency.{move_block_to_l2, evict_one, again, evict_while_full, one_fewer}
use mmu.Residency.Flags.{mutable_get-flags, flag_of}
use mmu.Residency.Calm.{flags, Calm, write_meta-Calm, sync_l1_to_l2-Calm, sync_l1_to_l2-Returns}
use mmu.Residency.Room.{cleared-stays_out}
use mmu.Residency.Reclaim.{get-flag}
use mmu.Frame.{Frames, sync_l1_to_l2-Frames}
use mmu.Data.{Apart, by_pool}
use mmu.Data.Copies.{Undisturbed, Synced, Syncs, sync_l1_to_l2-Syncs}

-- The pool that has the bytes of a block, by its flag.
abbrev pub home : Option Bool → Pool
home (some true) = Pool.l1_pool
home (some false) = Pool.l2_pool
home none = Pool.l2_pool

-- The bytes of block `j`, wherever they stand: the abstract view of the two pools.
abbrev pub block_data : Runtime → ℕ → Page
block_data rt j = content (pool_of rt (home (get_elem? (flags rt) j))) j

-- Block `j` has references.
abbrev pub InUse : Runtime → ℕ → Type 0
InUse rt j = (BlockManager.ref_count rt.l1_allocator (pos j) ==ℤ pos 0) ≡ false

-- The bytes of the blocks in use are the same, and no block has become resident.
pub record Preserved (a b : Runtime) : Type 0 where
  pub still_apart : Apart b
  pub kept_config : b.config ≡ a.config
  pub kept_allocator : b.l1_allocator ≡ a.l1_allocator
  pub kept_out : (j : ℕ) → get_elem? (flags a) j ≡ some false → get_elem? (flags b) j ≡ some false
  pub kept_data :
      (j : ℕ) → InUse a j → Same a.config.block_size_bytes (block_data b j) (block_data a j)

-- If no page is used twice, the bytes are preserved.
abbrev pub Preserves : Runtime → Runtime → Type 0
Preserves a b = Apart a → Preserved a b

pub Preserves-order : Order Preserves
Preserves-order = record {
  rel_refl = λ a h. record {
    still_apart = h;
    kept_config = refl;
    kept_allocator = refl;
    kept_out = λ j out. out;
    kept_data = λ j u k lt. refl;
  };
  rel_trans = λ a b c f g h.
      let fst = f h in
      let snd = g fst.still_apart in
      record {
        still_apart = snd.still_apart;
        kept_config = snd.kept_config ∙ fst.kept_config;
        kept_allocator = snd.kept_allocator ∙ fst.kept_allocator;
        kept_out = λ j out. snd.kept_out j (fst.kept_out j out);
        kept_data = λ j u k lt.
            snd.kept_data j (rw fst.kept_allocator u) k
              (omega (arith, lt, ap (λ x. x.block_size_bytes) fst.kept_config))
            ∙ fst.kept_data j u k lt;
      };
}

-- Calls that change no flag and no page.
pub quiet-Preserved : (a b : Runtime) → Frames a b → Calm a b → Undisturbed a b → Preserved a b
quiet-Preserved a b f c q = record {
  still_apart = q.quiet_apart;
  kept_config = f.same_config;
  kept_allocator = f.same_allocator;
  kept_out = λ j out. ap (λ fs. get_elem? fs j) c.same_flags ∙ out;
  kept_data = λ j u k lt.
      ap (λ fs. content (pool_of b (home (get_elem? fs j))) j k) c.same_flags
      ∙ q.quiet_pages (home (get_elem? (flags a) j)) j k lt;
}

-- The end of MoveBlockToL2: the L1 page is released.
abbrev pub let_go : ℕ → Runtime → Runtime
let_go i rt =
    write_meta (pos i) (λ meta. record meta { tier = l2 })
      (record rt { l1_pool = release_page rt.l1_pool (pos i) })

let_go-flags : (i : ℕ) (rt : Runtime) → flags (let_go i rt) ≡ flags rt
let_go-flags i rt =
    (write_meta-Calm (pos i) (λ meta. record meta { tier = l2 })
      (record rt { l1_pool = release_page rt.l1_pool (pos i) }) (λ m. refl)).same_flags

let_go-Preserved :
    (i : ℕ) (rt : Runtime)
    → home (get_elem? (flags rt) i) ≡ Pool.l2_pool
    → Preserves rt (let_go i rt)
let_go-Preserved i rt out h = record {
  still_apart = by_pool _ (release_page-IsApart rt.l1_pool i (h Pool.l1_pool)) (h Pool.l2_pool);
  kept_config = refl;
  kept_allocator = refl;
  kept_out = λ j o. ap (λ fs. get_elem? fs j) (let_go-flags i rt) ∙ o;
  kept_data = λ j u k lt.
      ap (λ fs. content (pool_of (let_go i rt) (home (get_elem? fs j))) j k) (let_go-flags i rt)
      ∙ rest j k;
}
  where
    pages :
        (p : Pool) (j k : ℕ)
        → (i == j) ≡ false
        → content (pool_of (let_go i rt) p) j k ≡ content (pool_of rt p) j k
    pages Pool.l1_pool j k ne = ap (λ f. f k) (release_page-content rt.l1_pool i j ne)
    pages Pool.l2_pool j k ne = refl

    rest :
        (j k : ℕ)
        → content (pool_of (let_go i rt) (home (get_elem? (flags rt) j))) j k ≡ block_data rt j k
    rest j k = elim (Bool-cases (i == j)) [
      | inr ne ↦ pages (home (get_elem? (flags rt) j)) j k ne
      | inl e ↦ let same : i ≡ j = ground arith in rw (← same, out) refl
    ]

-- The flag of a block whose bytes have been copied to L2 is cleared.
abbrev pub demote : ℕ → Runtime → Runtime
demote i rt =
    one_fewer (
      write_meta (pos i) (λ meta. record meta { resident_in_l1 = false; l1_frame_id = negsuc 0 })
        rt)

demote-flags : (i : ℕ) (rt : Runtime) → flags (demote i rt) ≡ set (flags rt) i false
demote-flags i rt = mutable_get-flags rt.block_directory i _ false (λ m. refl)

demote-Preserved :
    (i : ℕ) (a b : Runtime)
    → get_elem? (flags a) i ≡ some true
    → Frames a b
    → Calm a b
    → Synced Pool.l1_pool Pool.l2_pool i a b
    → Preserved a (demote i b)
demote-Preserved i a b res f c s = record {
  still_apart = s.synced_apart;
  kept_config = f.same_config;
  kept_allocator = f.same_allocator;
  kept_out = λ j o. ap (λ fs. get_elem? fs j) moved ∙ cleared-stays_out (flags a) i j o;
  kept_data =
      λ j u k lt. ap (λ fs. content (pool_of b (home (get_elem? fs j))) j k) moved ∙ rest j k lt;
}
  where
    moved : flags (demote i b) ≡ set (flags a) i false
    moved = demote-flags i b ∙ ap (λ fs. set fs i false) c.same_flags

    pages :
        (p : Pool) (j : ℕ)
        → (i == j) ≡ false
        → Same a.config.block_size_bytes (content (pool_of b p) j) (content (pool_of a p) j)
    pages Pool.l1_pool j ne = s.same_from j
    pages Pool.l2_pool j ne = s.same_to j ne

    rest :
        (j k : ℕ)
        → k < a.config.block_size_bytes
        → content (pool_of b (home (get_elem? (set (flags a) i false) j))) j k ≡ block_data a j k
    rest j k lt = elim (Bool-cases (i == j)) [
      | inr ne ↦
          rw (get_elem?-set_ne (flags a) i j false (ground arith))
            (pages (home (get_elem? (flags a) j)) j ne k lt)
      | inl e ↦
          let same : i ≡ j = ground arith in
          rw (← same, get_elem?-set_self (flags a) i false (lt_of_get_elem? (flags a) i res), res)
            (s.copied k lt)
    ]

pub home_of :
    (rt : Runtime) (i : ℕ) (m : BlockMeta) (b : Bool)
    → block_meta_for (pos i) rt ≡ some m
    → m.resident_in_l1 ≡ b
    → get_elem? (flags rt) i ≡ some b
home_of rt i m b e t = get-flag rt i ∙ ap flag_of e ∙ ap some t

demoted_home :
    (i : ℕ) (a b : Runtime)
    → get_elem? (flags a) i ≡ some true
    → Calm a b
    → home (get_elem? (flags (demote i b)) i) ≡ Pool.l2_pool
demoted_home i a b res c = ap home (
    ap (λ fs. get_elem? fs i) (demote-flags i b ∙ ap (λ fs. set fs i false) c.same_flags)
    ∙ get_elem?-set_self (flags a) i false (lt_of_get_elem? (flags a) i res))

move-Preserves : (i : ℕ) (rt : Runtime) → Preserves rt (move_block_to_l2 (pos i) rt).1
unfolding move_block_to_l2 ◌>>=◌
move-Preserves i rt h = elim (Bool-cases (BlockManager.is_valid rt.l1_allocator (pos i))) [
  | inr f ↦ rw f (Preserves-order.rel_refl rt h)
  | inl v ↦ elim (Option-cases (block_meta_for (pos i) rt)) [
    | inl e ↦ rw (v, e) (Preserves-order.rel_refl rt h)
    | inr (m, e) ↦ elim (Bool-cases m.allocated) [
      | inr f ↦ rw (v, e, f) (Preserves-order.rel_refl rt h)
      | inl a ↦ elim (Bool-cases m.resident_in_l1) [
        | inr f ↦ rw (v, e, a, f) (let_go-Preserved i rt (ap home (home_of rt i m false e f)) h)
        | inl t ↦
            let frame = (sync_l1_to_l2-Frames (pos i)).at rt in
            let calm = (sync_l1_to_l2-Calm (pos i)).at rt in
            let did = sync_l1_to_l2-Syncs i rt h in
            let s = sync_l1_to_l2 (pos i) rt in
            let res = home_of rt i m true e t in
            let by_result : Result (Unit {0}) → Type 0 =
              λ r. Syncs Pool.l1_pool Pool.l2_pool i rt r s.1 in
            elim (came s.0 ((sync_l1_to_l2-Returns (pos i)).from rt)) [
              | with_error x g ↦
                  rw (v, e, a, t, g) (quiet-Preserved rt s.1 frame calm (subst by_result g did))
              | with_value u g ↦
                  rw (v, e, a, t, g)
                    (Preserves-order.rel_trans rt (demote i s.1) (let_go i (demote i s.1))
                      (λ _. demote-Preserved i rt s.1 res frame calm (subst by_result g did))
                      (let_go-Preserved i (demote i s.1) (demoted_home i rt s.1 res calm)) h)
            ]
      ]
    ]
  ]
]

move_block_to_l2-Preserves : (id : ℤ) → Keeps Preserves (move_block_to_l2 id)
unfolding move_block_to_l2 ◌>>=◌ BlockManager.is_valid
move_block_to_l2-Preserves (pos i) = record { at = move-Preserves i }
move_block_to_l2-Preserves (negsuc i) = record { at = λ rt h. Preserves-order.rel_refl rt h }

evict_one-Preserves : (p : ℤ) → Keeps Preserves (evict_one p)
unfolding evict_one
evict_one-Preserves p = search (keeps_rules, Preserves-order, move_block_to_l2-Preserves) depth 12

again-Preserves :
    (m : Exec Runtime (Unit {0})) (p : ℤ) → Keeps Preserves m → Keeps Preserves (again m p)
unfolding again
again-Preserves m p h = Keeps-bind Preserves-order _ _ (Keeps-gets Preserves-order _) λ full.
    Keeps-if Preserves-order full _ _
      (Keeps-bind Preserves-order _ _ (evict_one-Preserves p) λ _. h)
      (Keeps-pure Preserves-order tt)

pub evict_while_full-Preserves : (n : ℕ) (p : ℤ) → Keeps Preserves (evict_while_full n p)
unfolding evict_while_full
evict_while_full-Preserves zero p = record { at = λ rt h. Preserves-order.rel_refl rt h }
evict_while_full-Preserves (suc n) p = record {
  at = (again-Preserves (evict_while_full n p) p (evict_while_full-Preserves n p)).at;
}
