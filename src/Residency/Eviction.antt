-- ===== src/Residency/Eviction.antt =====
-- MoveBlockToL2 and EvictOneBlock: one resident block fewer.
use mmu.Prelude.{
  ℕ, ◌+◌, ◌-◌, ℤ, pos, negsuc, ◌≡◌, refl, ap, ◌∙◌, arith, Bool, true, false, some, get_elem?, tally,
  set, tally-set, Bool-cases, Option-cases, inl, inr, lt_of_get_elem?,
}
use mmu.Types.{l2, Result, ok, err, stuck}
use mmu.Exec.{◌>>=◌}
use mmu.Exec.Returns.{came, with_error, with_value}
use mmu.BlockManager
use mmu.BlockDirectory
use mmu.BlockDirectory.{BlockMeta}
use mmu.ChunkPool.{release_page}
use mmu.Runtime.{Runtime, block_meta_for, write_meta}
use mmu.Residency.{move_block_to_l2, evict_one, one_fewer}
use mmu.Residency.Victim.{pick_eviction_candidate_oldest}
use mmu.Residency.Flags.{mutable_get-flags, get_elem?-flags_of, flag_of}
use mmu.Residency.Calm.{
  flags, Calm, Calm-refl, write_meta-Calm, sync_l1_to_l2-Calm, sync_l1_to_l2-Returns,
}
use mmu.Paging.{sync_l1_to_l2}

-- Block `i` is no longer resident.
pub record Evicted (i : ℕ) (rt rt' : Runtime) : Type 0 where
  pub cleared_flag : flags rt' ≡ set (flags rt) i false
  pub fewer : rt'.resident_count ≡ rt.resident_count - 1
  pub evicted_limit : rt'.resident_limit ≡ rt.resident_limit

-- What a call that evicts block `i` has done, by its result.
abbrev pub Evicting : ℕ → Runtime → Result (Unit {0}) → Runtime → Type 0
Evicting i rt (ok u) rt' = Evicted i rt rt'
Evicting i rt (err e) rt' = Calm rt rt'
Evicting i rt stuck rt' = false ≡ true

-- The rest of MoveBlockToL2 after a copy to L2 that succeeded.
abbrev finish_move : ℕ → Runtime → Runtime
finish_move i rt =
    let rt1 = one_fewer (
      write_meta (pos i) (λ meta. record meta { resident_in_l1 = false; l1_frame_id = negsuc 0 })
        rt) in
    write_meta (pos i) (λ meta. record meta { tier = l2 })
      (record rt1 { l1_pool = release_page rt1.l1_pool (pos i) })

finish_move-Evicted : (i : ℕ) (rt rt1 : Runtime) → Calm rt rt1 → Evicted i rt (finish_move i rt1)
finish_move-Evicted i rt rt1 c =
    let calm = write_meta-Calm (pos i) (λ meta. record meta { tier = l2 }) left (λ m. refl) in
    record {
      cleared_flag =
          calm.same_flags
          ∙ mutable_get-flags rt1.block_directory i _ false (λ m. refl)
          ∙ ap (λ fs. set fs i false) c.same_flags;
      fewer = calm.calm_count ∙ ground (arith, c.calm_count);
      evicted_limit = calm.calm_limit ∙ c.calm_limit;
    }
  where
    left : Runtime
    left =
        let rt2 = one_fewer (
          write_meta (pos i)
            (λ meta. record meta { resident_in_l1 = false; l1_frame_id = negsuc 0 }) rt1) in
        record rt2 { l1_pool = release_page rt2.l1_pool (pos i) }

flag_meta :
    (rt : Runtime) (i : ℕ)
    → get_elem? (flags rt) i ≡ some true
    → (m : BlockMeta) × (block_meta_for (pos i) rt ≡ some m) × (m.resident_in_l1 ≡ true)
unfolding BlockDirectory.get
flag_meta rt i h = elim (Option-cases (get_elem? rt.block_directory.metas i)) [
  | inl e ↦ absurd (ground (arith, h, e, get_elem?-flags_of rt.block_directory.metas i))
  | inr (m, e) ↦ (
    m,
    ground (arith, e, lt_of_get_elem? rt.block_directory.metas i e),
    ground (arith, e, h, get_elem?-flags_of rt.block_directory.metas i),
  )
]

pub move_block_to_l2-Evicting :
    (i : ℕ) (rt : Runtime)
    → get_elem? (flags rt) i ≡ some true
    → Evicting i rt (move_block_to_l2 (pos i) rt).0 (move_block_to_l2 (pos i) rt).1
unfolding move_block_to_l2 ◌>>=◌
move_block_to_l2-Evicting i rt h =
    let (m, at, res) = flag_meta rt i h in
    elim (Bool-cases (BlockManager.is_valid rt.l1_allocator (pos i))) [
      | inr f ↦ rw f (Calm-refl rt)
      | inl v ↦ elim (Bool-cases m.allocated) [
        | inr f ↦ rw (v, at, f) (Calm-refl rt)
        | inl a ↦
            elim (came (sync_l1_to_l2 (pos i) rt).0 ((sync_l1_to_l2-Returns (pos i)).from rt)) [
              | with_value u e ↦
                  rw (v, at, a, res, e)
                    (finish_move-Evicted i rt _ ((sync_l1_to_l2-Calm (pos i)).at rt))
              | with_error x e ↦ rw (v, at, a, res, e) ((sync_l1_to_l2-Calm (pos i)).at rt)
            ]
      ]
    ]

abbrev pub is_set : Bool → Bool
is_set b = b

-- The count of resident blocks is right.
abbrev pub Counted : Runtime → Type 0
Counted rt = rt.resident_count ≡ tally is_set (flags rt)

-- What an eviction has done, by its result.
abbrev pub Evicts : Runtime → Result (Unit {0}) → Runtime → Type 0
Evicts rt (ok u) rt' = (i : ℕ) × (get_elem? (flags rt) i ≡ some true) × Evicted i rt rt'
Evicts rt (err e) rt' = Calm rt rt'
Evicts rt stuck rt' = false ≡ true

Evicting-Evicts :
    (i : ℕ) (rt : Runtime) (r : Result (Unit {0})) (rt' : Runtime)
    → get_elem? (flags rt) i ≡ some true
    → Evicting i rt r rt'
    → Evicts rt r rt'
Evicting-Evicts i rt (ok u) rt' h e = (i, h, e)
Evicting-Evicts i rt (err x) rt' h e = e
Evicting-Evicts i rt stuck rt' h e = e

-- An eviction that succeeds makes exactly one block non-resident, one that was resident, and counts
-- one less. One that fails changes neither the count nor which blocks are resident, and an eviction
-- never runs out of fuel.
pub evict_one-Evicts : (p : ℤ) (rt : Runtime) → Evicts rt (evict_one p rt).0 (evict_one p rt).1
unfolding evict_one ◌>>=◌
evict_one-Evicts p rt = elim (pick_eviction_candidate_oldest rt p) [
  | inl (v, none_goes) ↦ rw v (Calm-refl rt)
  | inr (i, m, v, lt, (at, a, res, pin, ne), oldest) ↦
      let h : get_elem? (flags rt) i ≡ some true =
        get_elem?-flags_of rt.block_directory.metas i ∙ ap flag_of at ∙ ap some res in
      rw v (Evicting-Evicts i rt _ _ h (move_block_to_l2-Evicting i rt h))
]

pub Evicted-Counted :
    (i : ℕ) (rt rt' : Runtime)
    → Counted rt
    → get_elem? (flags rt) i ≡ some true
    → Evicted i rt rt'
    → Counted rt' × (rt'.resident_count + 1 ≡ rt.resident_count)
Evicted-Counted i rt rt' c h e =
    let counts = tally-set is_set (flags rt) i false true h in
    let same = ap (tally is_set) e.cleared_flag in
    let less = e.fewer in (omega (arith, counts, same, less, c), omega (arith, counts, less, c))
