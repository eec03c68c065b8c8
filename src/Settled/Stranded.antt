-- ===== src/Settled/Stranded.antt =====
-- A preparation for a write whose clone fails: the mapping has moved all the same.
use mmu.Prelude.{
  ℕ, ℤ, pos, ◌≡◌, refl, ap, ◌∙◌, arith, List, [], ◌∷◌, some, none, inl, inr, ◌⊎◌, ◌==◌,
  if◌then◌else◌,
}
use mmu.Types.{Result, ok, err, Error, ptr, PhysicalRoute}
use mmu.Exec.{pure, ◌>>=◌, continue}
use mmu.Exec.Keeps.{Keeps, keeps_rules}
use mmu.Exec.Returns.{Returns, returns_rules, came, with_value, with_error}
use mmu.PageTable
use mmu.Context
use mmu.Context.{Context, Session}
use mmu.Context.Replacing.{prepare_block_for_write-entry}
use mmu.Runtime.{Runtime, find, assign, find_context, in_context, session, store}
use mmu.Frame.{Frames, Frames-order, directory-Frames}
use mmu.Frame.Residency.{clone_block_data_for_cow-Frames}
use mmu.Api.{resolve_routing, clone_if_moved, prepare_block_for_write}
use mmu.Settled.Blocks.{routed}
use mmu.Settled.Paging.{clone-Returns}

find-assign :
    (h : ℕ) (c d : Context) (t : List (ℕ × Context))
    → find h t ≡ some c
    → find h (assign h d t) ≡ some d
find-assign h c d [] e = absurd (cc (e))
find-assign h c d ((k, b) ∷ t) e = ground (arith, find-assign h c d t)

stored :
    (ctx : ℕ) (rt : Runtime) (c : Context) (s : Session)
    → find_context ctx rt ≡ some c
    → find_context ctx (store ctx rt s) ≡ some s.context
unfolding find_context
stored ctx rt c s e = ground (arith, find-assign ctx c s.context rt.contexts, e)

same_context : (ctx : ℕ) (a b : Runtime) → Frames a b → find_context ctx b ≡ find_context ctx a
unfolding find_context
same_context ctx a b f = ap (λ cs. if ctx == 0 then none else find ctx cs) f.same_contexts

pub clone_if_moved-Frames : (r : PhysicalRoute) (id : ℤ) → Keeps Frames (clone_if_moved r id)
clone_if_moved-Frames r id =
    search (keeps_rules, Frames-order, directory-Frames, clone_block_data_for_cow-Frames) depth 30

pub clone_if_moved-Returns : (r : PhysicalRoute) (id : ℤ) → Returns (clone_if_moved r id)
clone_if_moved-Returns r id = search (returns_rules, clone-Returns) depth 30

-- What a preparation has done to the entry `lb` of the context `ctx`, where it is to hold `id`.
pub record Moved (ctx lb : ℕ) (id : ℤ) (r : Result ℤ) (b : Runtime) : Type 0 where
  pub moved_result : (r ≡ ok id) ⊎ ((e : Error) × (r ≡ err e))
  pub moved_entry :
      (c : Context) × (find_context ctx b ≡ some c)
      × (PageTable.get c.page_table (pos lb) ptr ≡ some id)

-- What follows the method of the context.
cloned-Moved :
    (ctx lb : ℕ) (route : PhysicalRoute) (id : ℤ) (rt : Runtime) (c : Context)
    → find_context ctx rt ≡ some c
    → PageTable.get c.page_table (pos lb) ptr ≡ some id
    → let b = (clone_if_moved route id >>= λ _. pure id) rt in Moved ctx lb id b.0 b.1
unfolding ◌>>=◌ pure
cloned-Moved ctx lb route id rt c found at =
    elim (came clone.0 ((clone_if_moved-Returns route id).from rt)) [
      | with_error x e ↦ rw e (record {
        moved_result = inr (x, refl);
        moved_entry = (c, same_context ctx rt clone.1 frame ∙ found, at);
      })
      | with_value u e ↦ rw e (record {
        moved_result = inl refl;
        moved_entry = (c, same_context ctx rt clone.1 frame ∙ found, at);
      })
    ]
  where
    clone : Result (Unit {0}) × Runtime
    clone = clone_if_moved route id rt

    frame : Frames rt clone.1
    frame = (clone_if_moved-Frames route id).at rt

after-Moved :
    (ctx lb : ℕ) (route : PhysicalRoute) (id : ℤ) (rt : Runtime) (c : Context) (r : Result ℤ)
    (s : Session)
    → find_context ctx rt ≡ some c
    → r ≡ ok id
    → PageTable.get s.context.page_table (pos lb) ptr ≡ some id
    → let b = continue r (λ i. clone_if_moved route i >>= λ _. pure i) (store ctx rt s) in
      Moved ctx lb id b.0 b.1
after-Moved ctx lb route id rt c r s found done at =
    rw done (cloned-Moved ctx lb route id (store ctx rt s) s.context (stored ctx rt c s found) at)

-- If a logical block has a route, and the method of the context returns block `id`, then the call
-- returns `id`, or an error where the clone fails, and in both cases the entry of the logical block
-- is `id` afterwards: an error does not undo the mapping.
pub prepare_block_for_write-Moved :
    (ctx lb : ℕ) (rt : Runtime) (route : PhysicalRoute) (id : ℤ)
    → (resolve_routing ctx lb ptr rt).0 ≡ ok route
    → (in_context ctx (Context.prepare_block_for_write (pos lb) ptr) rt).0 ≡ ok id
    → Moved ctx lb id (prepare_block_for_write ctx lb rt).0 (prepare_block_for_write ctx lb rt).1
unfolding prepare_block_for_write ◌>>=◌ in_context
prepare_block_for_write-Moved ctx lb rt route id known given = elim (routed ctx lb rt) [
  | inl (e, failed) ↦ absurd (cc (known, ap (λ p. p.0) failed))
  | inr (c, r, done, found, int, at) ↦
      let gives : (Context.prepare_block_for_write (pos lb) ptr (session rt c)).0 ≡ ok id =
        rw (found) at given in
      rw (done, int, found)
        (after-Moved ctx lb r id rt c _ _ found gives
          (prepare_block_for_write-entry lb r.physical_block_id id (session rt c) at gives))
]
