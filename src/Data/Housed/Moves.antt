-- ===== src/Data/Housed/Moves.antt =====
-- Eviction keeps every block housed.
use mmu.Exec.Keeps.{Keeps, Keeps-bind, Keeps-gets, Keeps-if, Keeps-pure, keeps_rules}
use mmu.Exec.{Exec, ◌>>=◌}
use mmu.Residency.{evict_one, again, evict_while_full, is_resident, move_block_to_l2}
use mmu.Prelude.{
  zero, suc, ℤ, negsuc, ℕ, pos, ◌≡◌, refl, sym, ap, ◌∙◌, false, ◌==◌, Bool-cases, Option-cases, inl,
  inr,
}
use mmu.Types.{l2}
use mmu.Exec.Returns.{came, with_value, with_error}
use mmu.BlockManager
use mmu.ChunkPool.{owner, release_page}
use mmu.Runtime.{Runtime, Pool, pool_of, block_meta_for}
use mmu.Paging.{sync_l1_to_l2}
use mmu.Paging.Pages.{content, release_page-owner_ne, release_page-owner}
use mmu.Data.{by_pool}
use mmu.Paging.Apart.{release_page-IsApart}
use mmu.Residency.Calm.{sync_l1_to_l2-Returns}
use mmu.Data.Moves.{let_go, demote}
use mmu.Data.Housed.{out-House, StaysHoused-order, entry, tier_of, StaysHoused, all_but-IsHoused}
use mmu.Data.Housed.Writes.{written-out, write_meta-entry_self, write_meta-entry_ne}
use mmu.BlockDirectory.Writes.{get-at, written}
use mmu.Data.Housed.Paging.{sync-StaysHoused}

-- Block `i`, which is not resident, gives its L1 page back.
module _ (i : ℕ) (b d : Runtime) (same_config : d.config ≡ b.config)
    (pools : (p : Pool) → pool_of d p ≡ pool_of b p)
    (others : (j : ℕ) → (i == j) ≡ false → entry d j ≡ entry b j)
    (out : is_resident (entry d i) ≡ false) where
  abbrev left : Runtime
  left = record d { l1_pool = release_page d.l1_pool (pos i) }

  let_go-entry : is_resident (entry (let_go i d) i) ≡ false
  let_go-entry = elim (Option-cases (entry d i)) [
    | inl e ↦
        ap is_resident
          (write_meta-entry_self i (λ meta. record meta { tier = l2 }) left ∙ ap (written _) e)
    | inr (m, e) ↦
        ap is_resident
          (write_meta-entry_self i (λ meta. record meta { tier = l2 }) left ∙ ap (written _) e)
        ∙ sym (ap is_resident e)
        ∙ out
  ]

  let_go-IsHoused : StaysHoused b (let_go i d)
  let_go-IsHoused g =
      all_but-IsHoused i b (let_go i d)
        (by_pool _
          (release_page-IsApart d.l1_pool i (rw (pools Pool.l1_pool) (g.apart Pool.l1_pool)))
          (rw (pools Pool.l2_pool) (g.apart Pool.l2_pool)))
        (ap (λ c. c.block_size_bytes) same_config)
        (λ j ne.
          let at =
            write_meta-entry_ne i (λ meta. record meta { tier = l2 }) left j ne ∙ others j ne in
          record {
            same_resident = ap is_resident at;
            same_tier = ap tier_of at;
            same_l1 =
                release_page-owner_ne d.l1_pool i j ne ∙ ap (λ p. owner p j) (pools Pool.l1_pool);
            same_l2 = λ k lt. ap (λ p. content p j k) (pools Pool.l2_pool);
          })
        (out-House _ _ _ _ let_go-entry (release_page-owner d.l1_pool i)) g

demote_out : (i : ℕ) (b : Runtime) → is_resident (entry (demote i b) i) ≡ false
demote_out i b =
    ap is_resident (write_meta-entry_self i _ b) ∙ written-out _ (entry b i) (λ m. refl)

move-StaysHoused : (i : ℕ) (rt : Runtime) → StaysHoused rt (move_block_to_l2 (pos i) rt).1
unfolding move_block_to_l2 ◌>>=◌
move-StaysHoused i rt g = elim (Bool-cases (BlockManager.is_valid rt.l1_allocator (pos i))) [
  | inr f ↦ rw f g
  | inl v ↦ elim (Option-cases (block_meta_for (pos i) rt)) [
    | inl e ↦ rw (v, e) g
    | inr (m, e) ↦ elim (Bool-cases m.allocated) [
      | inr f ↦ rw (v, e, f) g
      | inl a ↦ elim (Bool-cases m.resident_in_l1) [
        | inr f ↦
            rw (v, e, a, f)
              (let_go-IsHoused i rt rt refl (λ p. refl) (λ j ne. refl)
                (ap is_resident (sym (get-at rt.block_directory i) ∙ e) ∙ f) g)
        | inl t ↦
            let s = sync_l1_to_l2 (pos i) rt in
            let after = sync-StaysHoused i rt g in
            elim (came s.0 ((sync_l1_to_l2-Returns (pos i)).from rt)) [
              | with_error x h ↦ rw (v, e, a, t, h) after
              | with_value u h ↦
                  rw (v, e, a, t, h)
                    (let_go-IsHoused i s.1 (demote i s.1) refl (by_pool _ refl refl)
                      (λ j ne. write_meta-entry_ne i _ s.1 j ne) (demote_out i s.1) after)
            ]
      ]
    ]
  ]
]

pub move_block_to_l2-StaysHoused : (id : ℤ) → Keeps StaysHoused (move_block_to_l2 id)
unfolding move_block_to_l2 ◌>>=◌ BlockManager.is_valid
move_block_to_l2-StaysHoused (pos i) = record { at = move-StaysHoused i }
move_block_to_l2-StaysHoused (negsuc n) = record { at = λ rt g. g }

evict_one-StaysHoused : (id : ℤ) → Keeps StaysHoused (evict_one id)
unfolding evict_one
evict_one-StaysHoused id =
    search (keeps_rules, StaysHoused-order, move_block_to_l2-StaysHoused) depth 20

again-StaysHoused :
    (m : Exec Runtime (Unit {0})) (p : ℤ) → Keeps StaysHoused m → Keeps StaysHoused (again m p)
unfolding again
again-StaysHoused m p h = Keeps-bind StaysHoused-order _ _ (Keeps-gets StaysHoused-order _) λ full.
    Keeps-if StaysHoused-order full _ _
      (Keeps-bind StaysHoused-order _ _ (evict_one-StaysHoused p) λ _. h)
      (Keeps-pure StaysHoused-order tt)

pub evict_while_full-StaysHoused : (n : ℕ) (p : ℤ) → Keeps StaysHoused (evict_while_full n p)
unfolding evict_while_full
evict_while_full-StaysHoused zero p = record { at = λ rt g. g }
evict_while_full-StaysHoused (suc n) p = record {
  at = (again-StaysHoused (evict_while_full n p) p (evict_while_full-StaysHoused n p)).at;
}
