-- ===== src/Residency/Room.antt =====
-- The loop of EnsureResidentInL1 that evicts blocks until one more fits.
use mmu.Prelude.{
  length, length-set, ℕ, zero, suc, ◌<◌, ◌≤◌, ℤ, ◌≡◌, refl, sym, ap, ◌∙◌, arith, Bool, true, false,
  some, get_elem?, set, Bool-cases, inl, inr, leb, get_elem?-set_ne, get_elem?-set_self,
  lt_of_get_elem?, ◌==◌, tally, List,
}
use mmu.Types.{Result, ok, err, stuck}
use mmu.Exec.{◌>>=◌, continue}
use mmu.Exec.Returns.{returns}
use mmu.Runtime.{Runtime}
use mmu.Residency.{evict_while_full, again}
use mmu.Residency.Calm.{flags, Calm}
use mmu.Residency.Eviction.{Counted, is_set, Evicts, Evicted, evict_one-Evicts, Evicted-Counted}

-- The count is still right, no block has become resident, and the limit and the number of blocks
-- are the same.
pub record Shrinks (rt rt' : Runtime) : Type 0 where
  pub still_counted : Counted rt'
  pub no_more : rt'.resident_count ≤ rt.resident_count
  pub stays_out :
      (i : ℕ) → get_elem? (flags rt) i ≡ some false → get_elem? (flags rt') i ≡ some false
  pub shrinks_limit : rt'.resident_limit ≡ rt.resident_limit
  pub same_blocks : length (flags rt') ≡ length (flags rt)

pub Shrinks-refl : (rt : Runtime) → Counted rt → Shrinks rt rt
Shrinks-refl rt c = record {
  still_counted = c;
  no_more = omega arith;
  stays_out = λ i h. h;
  shrinks_limit = refl;
  same_blocks = refl;
}

pub Shrinks-trans : (a b c : Runtime) → Shrinks a b → Shrinks b c → Shrinks a c
Shrinks-trans a b c f g = record {
  still_counted = g.still_counted;
  no_more = omega (arith, f.no_more, g.no_more);
  stays_out = λ i h. g.stays_out i (f.stays_out i h);
  shrinks_limit = g.shrinks_limit ∙ f.shrinks_limit;
  same_blocks = g.same_blocks ∙ f.same_blocks;
}

pub Calm-Shrinks : (a b : Runtime) → Counted a → Calm a b → Shrinks a b
Calm-Shrinks a b c f = record {
  still_counted = f.calm_count ∙ c ∙ sym (ap (tally is_set) f.same_flags);
  no_more = omega (arith, f.calm_count);
  stays_out = λ i h. ap (λ fs. get_elem? fs i) f.same_flags ∙ h;
  shrinks_limit = f.calm_limit;
  same_blocks = ap length f.same_flags;
}

-- A flag that is cleared sets no other flag.
pub cleared-stays_out :
    (fs : List Bool) (i j : ℕ)
    → get_elem? fs j ≡ some false
    → get_elem? (set fs i false) j ≡ some false
cleared-stays_out fs i j h = elim (Bool-cases (i == j)) [
  | inl e ↦
      let same : i ≡ j = ground arith in
      rw same (get_elem?-set_self fs j false (lt_of_get_elem? fs j h))
  | inr f ↦ get_elem?-set_ne fs i j false (ground arith) ∙ h
]

pub Evicted-Shrinks :
    (i : ℕ) (a b : Runtime)
    → Counted a
    → get_elem? (flags a) i ≡ some true
    → Evicted i a b
    → Shrinks a b
Evicted-Shrinks i a b c h e = record {
  still_counted = (Evicted-Counted i a b c h e).0;
  no_more = omega (arith, (Evicted-Counted i a b c h e).1);
  stays_out =
      λ j out. ap (λ fs. get_elem? fs j) e.cleared_flag ∙ cleared-stays_out (flags a) i j out;
  shrinks_limit = e.evicted_limit;
  same_blocks = ap length e.cleared_flag ∙ length-set (flags a) i false;
}

-- What a call has done that makes room: on success a further block fits.
pub record Room (rt : Runtime) (r : Result (Unit {0})) (rt' : Runtime) : Type 0 where
  pub shrinks : Shrinks rt rt'
  pub comes_back : returns r ≡ true
  pub has_room : r ≡ ok tt → rt'.resident_count < rt'.resident_limit

Room-trans : (a b c : Runtime) (r : Result (Unit {0})) → Shrinks a b → Room b r c → Room a r c
Room-trans a b c r s m = record {
  shrinks = Shrinks-trans a b c s m.shrinks;
  comes_back = m.comes_back;
  has_room = m.has_room;
}

-- One round, where the rounds after it make room once it has evicted a block.
after_round :
    (n : ℕ) (p : ℤ) (rt : Runtime) (r : Result (Unit {0})) (rt1 : Runtime)
    → Counted rt
    → rt.resident_count < suc n
    → Evicts rt r rt1
    → ((s : Runtime)
        → Counted s
        → s.resident_count < n
        → Room s (evict_while_full n p s).0 (evict_while_full n p s).1)
    → Room rt
        (continue r (λ _. evict_while_full n p) rt1).0
        (continue r (λ _. evict_while_full n p) rt1).1
after_round n p rt (ok u) rt1 c lt (i, h, e) ih =
    let (c', less) = Evicted-Counted i rt rt1 c h e in
    Room-trans rt rt1 _ _ (Evicted-Shrinks i rt rt1 c h e) (ih rt1 c' (omega (arith, less)))
after_round n p rt (err x) rt1 c lt calm ih = record {
  shrinks = Calm-Shrinks rt rt1 c calm;
  comes_back = refl;
  has_room = λ eq. absurd (cc);
}
after_round n p rt stuck rt1 c lt h ih = absurd (cc)

-- If the count of resident blocks is right and below the fuel, then the loop comes back before the
-- fuel ends. The count is then right and no larger, no block has become resident, and on success
-- the count is below the limit.
pub evict_while_full-Room :
    (n : ℕ) (p : ℤ) (rt : Runtime)
    → Counted rt
    → rt.resident_count < n
    → Room rt (evict_while_full n p rt).0 (evict_while_full n p rt).1
unfolding evict_while_full again ◌>>=◌
evict_while_full-Room zero p rt c lt = absurd (omega arith)
evict_while_full-Room (suc n) p rt c lt =
    elim (Bool-cases (leb rt.resident_limit rt.resident_count)) [
      | inl full ↦
          rw full (after_round n p rt _ _ c lt (evict_one-Evicts p rt) (evict_while_full-Room n p))
      | inr fits ↦
          rw fits (record {
            shrinks = Shrinks-refl rt c;
            comes_back = refl;
            has_room = λ _. ground arith;
          })
    ]
