-- ===== src/Data/Promotion.antt =====
-- Bringing a block to L1 keeps the bytes of every block in use.
use mmu.Prelude.{
  ℕ, ◌<◌, suc, pos, ◌≡◌, refl, ap, ◌∙◌, subst, arith, true, false, some, ◌==◌, get_elem?, set,
  length, get_elem?-set_self, get_elem?-set_ne, lt_of_get_elem?, Bool-cases, Option-cases, inl, inr,
}
use mmu.Types.{Result, ok, err, stuck, l1}
use mmu.Exec.{Exec, modify, ◌>>=◌, ◌>>◌, continue}
use mmu.Exec.Returns.{came, with_value, with_error}
use mmu.BlockManager
use mmu.Runtime.{Runtime, Pool, pool_of, block_meta_for, write_meta, touch_block}
use mmu.Paging.{sync_l2_to_l1}
use mmu.Paging.Pages.{content, Same}
use mmu.Residency.{
  evict_while_full, promote, keep_resident, one_more, ensure_resident_in_l1,
  reclaim_unused_resident_blocks,
}
use mmu.Residency.Calm.{
  flags, Calm, write_meta-Calm, touch_block-Calm, sync_l2_to_l1-Calm, sync_l2_to_l1-Returns,
}
use mmu.Residency.Promotion.{settle, settle-flags}
use mmu.Frame.{Frames, sync_l2_to_l1-Frames}
use mmu.Data.{Apart}
use mmu.Data.Copies.{Synced, Syncs, sync_l2_to_l1-Syncs}
use mmu.Data.Moves.{
  home, home_of, block_data, InUse, Preserved, Preserves-order, quiet-Preserved,
  evict_while_full-Preserves,
}
use mmu.Data.Reclaim.{reclaim-Preserves}

-- No page is used twice, and the bytes of the blocks in use are the same.
pub record Intact (a b : Runtime) : Type 0 where
  pub intact_apart : Apart b
  pub intact_data :
      (j : ℕ) → InUse a j → Same a.config.block_size_bytes (block_data b j) (block_data a j)

pub Preserved-Intact : (a b : Runtime) → Preserved a b → Intact a b
Preserved-Intact a b p = record { intact_apart = p.still_apart; intact_data = p.kept_data }

Intact-after : (a b c : Runtime) → Preserved a b → Intact b c → Intact a c
Intact-after a b c p s = record {
  intact_apart = s.intact_apart;
  intact_data = λ j u k lt.
      s.intact_data j (rw p.kept_allocator u) k
        (omega (arith, lt, ap (λ x. x.block_size_bytes) p.kept_config))
      ∙ p.kept_data j u k lt;
}

-- A call and what follows it where it succeeds.
continue-Intact :
    {A : Type 0} (a b : Runtime) (r : Result A) (f : A → Exec Runtime (Unit {0}))
    → Preserved a b
    → ((x : A) → r ≡ ok x → Intact a (f x b).1)
    → Intact a (continue r f b).1
continue-Intact a b (ok x) f p k = k x refl
continue-Intact a b (err e) f p k = Preserved-Intact a b p
continue-Intact a b stuck f p k = Preserved-Intact a b p

settle-Intact :
    (i : ℕ) (a b : Runtime)
    → get_elem? (flags a) i ≡ some false
    → Calm a b
    → Synced Pool.l2_pool Pool.l1_pool i a b
    → Intact a (settle i b)
unfolding touch_block
settle-Intact i a b out c s = record {
  intact_apart = s.synced_apart;
  intact_data =
      λ j u k lt. ap (λ fs. content (pool_of b (home (get_elem? fs j))) j k) moved ∙ rest j k lt;
}
  where
    moved : flags (settle i b) ≡ set (flags a) i true
    moved = settle-flags i b ∙ ap (λ fs. set fs i true) c.same_flags

    pages :
        (p : Pool) (j : ℕ)
        → (i == j) ≡ false
        → Same a.config.block_size_bytes (content (pool_of b p) j) (content (pool_of a p) j)
    pages Pool.l1_pool j ne = s.same_to j ne
    pages Pool.l2_pool j ne = s.same_from j

    rest :
        (j k : ℕ)
        → k < a.config.block_size_bytes
        → content (pool_of b (home (get_elem? (set (flags a) i true) j))) j k ≡ block_data a j k
    rest j k lt = elim (Bool-cases (i == j)) [
      | inr ne ↦
          rw (get_elem?-set_ne (flags a) i j true (ground arith))
            (pages (home (get_elem? (flags a) j)) j ne k lt)
      | inl e ↦
          let same : i ≡ j = ground arith in
          rw (← same, get_elem?-set_self (flags a) i true (lt_of_get_elem? (flags a) i out), out)
            (s.copied k lt)
    ]

-- What follows the evictions: the copy and the flag.
abbrev pub arrive : ℕ → Exec Runtime (Unit {0})
arrive i = do
  sync_l2_to_l1 (pos i)
  modify (
      write_meta (pos i)
        λ meta. record meta { resident_in_l1 = true; l1_frame_id = pos i; tier = l1 })
  modify one_more
  modify (touch_block (pos i))

arrive-Intact :
    (i : ℕ) (rt : Runtime)
    → Apart rt
    → get_elem? (flags rt) i ≡ some false
    → Intact rt (arrive i rt).1
unfolding ◌>>=◌
arrive-Intact i rt h out = elim (came copy.0 ((sync_l2_to_l1-Returns (pos i)).from rt)) [
  | with_error x g ↦
      rw g
        (Preserved-Intact rt copy.1 (quiet-Preserved rt copy.1 frame calm (subst by_result g did)))
  | with_value v g ↦ rw g (settle-Intact i rt copy.1 out calm (subst by_result g did))
]
  where
    copy : Result (Unit {0}) × Runtime
    copy = sync_l2_to_l1 (pos i) rt

    frame : Frames rt copy.1
    frame = (sync_l2_to_l1-Frames (pos i)).at rt

    calm : Calm rt copy.1
    calm = (sync_l2_to_l1-Calm (pos i)).at rt

    by_result : Result (Unit {0}) → Type 0
    by_result r = Syncs Pool.l2_pool Pool.l1_pool i rt r copy.1

    did : by_result copy.0
    did = sync_l2_to_l1-Syncs i rt h

promote-Intact :
    (i : ℕ) (rt : Runtime)
    → Apart rt
    → get_elem? (flags rt) i ≡ some false
    → Intact rt (promote (pos i) rt).1
unfolding promote ◌>>=◌
promote-Intact i rt h out =
    continue-Intact rt roomy _ (λ _. arrive i) room
      λ u e.
        Intact-after rt roomy (arrive i roomy).1 room
          (arrive-Intact i roomy room.still_apart (room.kept_out i out))
  where
    roomy : Runtime
    roomy = (evict_while_full (suc (length rt.block_directory.metas)) (pos i) rt).1

    room : Preserved rt roomy
    room = (evict_while_full-Preserves (suc (length rt.block_directory.metas)) (pos i)).at rt h

keep_resident-Intact : (i : ℕ) (rt : Runtime) → Apart rt → Intact rt (keep_resident (pos i) rt).1
unfolding keep_resident touch_block ◌>>=◌
keep_resident-Intact i rt h = record {
  intact_apart = h;
  intact_data = λ j u k lt. ap (λ fs. content (pool_of rt (home (get_elem? fs j))) j k) same;
}
  where
    touched : Runtime
    touched = touch_block (pos i) rt

    same : flags (write_meta (pos i) (λ meta. record meta { tier = l1 }) touched) ≡ flags rt
    same =
        (write_meta-Calm (pos i) (λ meta. record meta { tier = l1 }) touched (λ m. refl)).same_flags
        ∙ (touch_block-Calm (pos i) rt).same_flags

-- If no page of either pool is used twice, then EnsureResidentInL1, whatever its result is, keeps
-- the bytes of every block that has references, through all evictions and the copies between the
-- pools. Afterwards no page is used twice.
pub ensure_resident_in_l1-Intact :
    (i : ℕ) (rt : Runtime) → Apart rt → Intact rt (ensure_resident_in_l1 (pos i) rt).1
unfolding ensure_resident_in_l1 ◌>>=◌
ensure_resident_in_l1-Intact i rt h =
    elim (Bool-cases (BlockManager.is_valid rt.l1_allocator (pos i))) [
      | inr f ↦ rw f (Preserved-Intact rt rt (Preserves-order.rel_refl rt h))
      | inl v ↦ elim (Option-cases (block_meta_for (pos i) left)) [
        | inl e ↦ rw (v, e) (Preserved-Intact rt left kept)
        | inr (m, e) ↦ elim (Bool-cases m.allocated) [
          | inr f ↦ rw (v, e, f) (Preserved-Intact rt left kept)
          | inl a ↦ elim (Bool-cases m.resident_in_l1) [
            | inl t ↦
                rw (v, e, a, t)
                  (Intact-after rt left _ kept (keep_resident-Intact i left kept.still_apart))
            | inr f ↦
                rw (v, e, a, f)
                  (Intact-after rt left _ kept
                    (promote-Intact i left kept.still_apart (home_of left i m false e f)))
          ]
        ]
      ]
    ]
  where
    left : Runtime
    left = reclaim_unused_resident_blocks rt

    kept : Preserved rt left
    kept = reclaim-Preserves rt h
