-- ===== src/Context/Rounds.antt =====
-- The rounds of AllocateBlocks: the blocks that they take, and how they end.
use mmu.Prelude.{
  ℕ, zero, suc, ◌+◌, ◌≤◌, ◌<◌, ℤ, pos, negsuc, ◌==ℤ◌, List, [], ◌∷◌, ◌++◌, none, some, ◌≡◌, refl,
  sym, ap, ◌∙◌, inl, inr, arith, length, tally, length-set,
}
use mathlib.Core.List.{append_assoc, append-nil}
use mmu.Types.{ptr, ok, err, out_of_memory}
use mmu.BlockManager
use mmu.BlockManager.{BlockManager, count_at}
use mmu.BlockManager.Invariant.{IsValid, Updates, allocate-Updates}
use mmu.Context.{Session, entries_of, allocate_rounds, release_ids}
use mmu.Context.Balance.{mentions, Updates-count}

abbrev pub grown : Session → BlockManager → List ℤ → Session
grown s m ids = record {
  manager = m;
  context = record s.context { page_table = record { entries = entries_of s ++ ids } };
}

-- `m'` is `m` after `ids` have been handed out, each of them free before.
pub record Takes (m : BlockManager) (ids : List ℤ) (m' : BlockManager) : Type 0 where
  pub counts : (j : ℕ) → count_at m' j ≡ count_at m j + mentions j ids
  pub at_most_once : (j : ℕ) → mentions j ids ≤ 1
  pub no_blank : (n : ℕ) → tally (λ e. e ==ℤ negsuc n) ids ≡ 0
  pub free_before : (j : ℕ) → 0 < mentions j ids → count_at m j ≡ 0
  pub valid : IsValid m'
  pub same_capacity : length m'.ref_counts ≡ length m.ref_counts
  pub taken : length m'.free_list + length ids ≡ length m.free_list

Takes-nil : (m : BlockManager) → IsValid m → Takes m [] m
Takes-nil m v = record {
  counts = λ j. omega arith;
  at_most_once = λ j. omega arith;
  no_blank = λ n. refl;
  free_before = λ j h. absurd (omega arith);
  valid = v;
  same_capacity = refl;
  taken = omega arith;
}

Takes-cons :
    (m m' m'' : BlockManager) (i : ℕ) (ids : List ℤ)
    → Updates m i 0 1 m'
    → suc (length m'.free_list) ≡ length m.free_list
    → Takes m' ids m''
    → Takes m (pos i ∷ ids) m''
Takes-cons m m' m'' i ids u len t = record {
  counts = λ j. ground (arith, Updates-count m i 0 1 m' u j, u.0, t.counts j);
  at_most_once =
      λ j. ground (arith, Updates-count m i 0 1 m' u j, t.at_most_once j, t.free_before j);
  no_blank = λ n. omega (arith, t.no_blank n);
  free_before = λ j h. ground (arith, Updates-count m i 0 1 m' u j, u.0, t.free_before j);
  valid = t.valid;
  same_capacity = t.same_capacity ∙ ap length u.1 ∙ length-set m.ref_counts i 1;
  taken = omega (arith, t.taken, len);
}

round_ok :
    (n : ℕ) (acc : List ℤ) (s : Session) (id : ℤ) (m : BlockManager)
    → BlockManager.allocate s.manager ptr ≡ some (id, m)
    → allocate_rounds (suc n) acc s ≡ allocate_rounds n (acc ++ id ∷ []) (grown s m (id ∷ []))
unfolding allocate_rounds
round_ok n acc s id m e = rw (e, allocate_rounds)

round_short :
    (n : ℕ) (acc : List ℤ) (s : Session)
    → BlockManager.allocate s.manager ptr ≡ none
    → allocate_rounds (suc n) acc s
      ≡ (err out_of_memory, record s { manager = release_ids acc s.manager })
unfolding allocate_rounds
round_short n acc s e = rw (e, allocate_rounds)

-- What is appended in two steps is appended at once.
append_twice :
    (acc ids : List ℤ) (id : ℤ) (s : Session) (m m' : BlockManager)
    → ◌≡◌ {A = List ℤ × Session}
        ((acc ++ id ∷ []) ++ ids, grown (grown s m (id ∷ [])) m' ids)
        (acc ++ id ∷ ids, grown s m' (id ∷ ids))
append_twice acc ids id s m m' =
    rw (append_assoc acc (id ∷ []) ids, append_assoc (entries_of s) (id ∷ []) ids)

-- The rounds go through while blocks are free.
pub rounds_enough :
    (n : ℕ) (acc : List ℤ) (s : Session)
    → IsValid s.manager
    → n ≤ length s.manager.free_list
    → (ids : List ℤ) × (m : BlockManager) × (allocate_rounds n acc s
        ≡ (ok (acc ++ ids), grown s m ids))
      × (length ids ≡ n)
      × Takes s.manager ids m
unfolding allocate_rounds
rounds_enough zero acc s v h =
    ([], s.manager, rw (append-nil acc, append-nil (entries_of s)), refl, Takes-nil s.manager v)
rounds_enough (suc n) acc s v h = elim (allocate-Updates s.manager v) [
  | inl (empty, failed) ↦ absurd (omega (arith, ap length empty))
  | inr (i, m, done, u, len) ↦
      let (ids, m', e, size, t) =
        rounds_enough n (acc ++ pos i ∷ []) (grown s m (pos i ∷ [])) u.2 (omega (arith, len)) in
      (
        pos i ∷ ids,
        m',
        round_ok n acc s (pos i) m done
            ∙ e
            ∙ ap (λ p. (ok p.0, p.1)) (append_twice acc ids (pos i) s m m'),
        omega (arith, size),
        Takes-cons s.manager m m' i ids u len t,
      )
]

-- With too few free blocks all of them are taken before the loop gives up.
pub rounds_short :
    (n : ℕ) (acc : List ℤ) (s : Session)
    → IsValid s.manager
    → length s.manager.free_list < n
    → (ids : List ℤ) × (m : BlockManager) × (allocate_rounds n acc s
        ≡ (err out_of_memory, grown s (release_ids (acc ++ ids) m) ids))
      × (length ids ≡ length s.manager.free_list)
      × Takes s.manager ids m
rounds_short zero acc s v h = absurd (omega arith)
rounds_short (suc n) acc s v h = elim (allocate-Updates s.manager v) [
  | inl (empty, failed) ↦ (
    [],
    s.manager,
    round_short n acc s failed ∙ (rw (append-nil acc, append-nil (entries_of s))),
    ap length (sym empty),
    Takes-nil s.manager v,
  )
  | inr (i, m, done, u, len) ↦
      let (ids, m', e, size, t) =
        rounds_short n (acc ++ pos i ∷ []) (grown s m (pos i ∷ [])) u.2 (omega (arith, len)) in
      (
        pos i ∷ ids,
        m',
        round_ok n acc s (pos i) m done
            ∙ e
            ∙ ap (λ p. (err out_of_memory, record p.1 { manager = release_ids p.0 m' }))
                (append_twice acc ids (pos i) s m m'),
        omega (arith, size, len),
        Takes-cons s.manager m m' i ids u len t,
      )
]
