-- ===== src/Settled/Held.antt =====
-- What a preparation for a write leaves of the references: every block keeps one, and the block that
-- is returned has exactly one.
use mmu.Prelude.{ℕ, ◌<◌, ℤ, pos, ◌≡◌, refl, arith, false, length, ltb, Bool-cases, inl, inr, ◌==ℤ◌}
use mmu.Types.{Result, ok, err, stuck, PhysicalRoute}
use mmu.Exec.{pure, ◌>>=◌, continue}
use mmu.Exec.Returns.{came, with_value, with_error}
use mmu.BlockManager
use mmu.BlockDirectory.Writes.{get_elem?-none}
use mmu.BlockManager.{BlockManager, count_at}
use mmu.Context.{Session}
use mmu.Context.Freeing.{Preparing, prepare_block_for_write-Preparing}
use mmu.Context.Holding.{prepare_block_for_write-holds}
use mmu.Context.Spares.{SparesAll}
use mmu.Runtime.{Runtime, in_context, session, store}
use mmu.Frame.{Frames}
use mmu.Api.{clone_if_moved, prepare_block_for_write}
use mmu.Settled.{Settled}
use mmu.Settled.Blocks.{routed}
use mmu.Settled.Stranded.{clone_if_moved-Frames, clone_if_moved-Returns}
use mmu.Data.Moves.{InUse}

-- From `a` to `b`, where `r` is returned.
pub record Held (a : Runtime) (r : Result ℤ) (b : Runtime) : Type 0 where
  pub held_config : b.config ≡ a.config
  pub held_used : (j : ℕ) → InUse a j → InUse b j
  pub held_once : (n : ℕ) → r ≡ ok (pos n) → BlockManager.ref_count b.l1_allocator (pos n) ≡ pos 1

spared-InUse :
    (m m' : BlockManager) (j : ℕ)
    → SparesAll m m'
    → (BlockManager.ref_count m (pos j) ==ℤ pos 0) ≡ false
    → (BlockManager.ref_count m' (pos j) ==ℤ pos 0) ≡ false
unfolding BlockManager.ref_count
spared-InUse m m' j s used = elim (Bool-cases (ltb j (length m.ref_counts))) [
  | inr out ↦ ground (arith, out, s.spares_capacity)
  | inl inside ↦
      let some_left : 0 < count_at m j = ground (arith, inside, used) in
      let left : 0 < count_at m' j = s.spares j refl some_left in
      ground (arith, inside, s.spares_capacity, left)
]

once : (m : BlockManager) (n : ℕ) → count_at m n ≡ 1 → BlockManager.ref_count m (pos n) ≡ pos 1
unfolding BlockManager.ref_count
once m n h = elim (Bool-cases (ltb n (length m.ref_counts))) [
  | inl inside ↦ ground (arith, inside, h)
  | inr out ↦ absurd (ground (arith, out, h, get_elem?-none m.ref_counts n out))
]

-- What follows the method of the context.
module _ (route : PhysicalRoute) (ctx : ℕ) (rt : Runtime) where
  after-Held :
      (r : Result ℤ) (s : Session)
      → Preparing route.physical_block_id rt.l1_allocator r s.manager
      → ((n : ℕ) → r ≡ ok (pos n) → count_at s.manager n ≡ 1)
      → let b = continue r (λ id. clone_if_moved route id >>= λ _. pure id) (store ctx rt s) in
        Held rt b.0 b.1
  unfolding ◌>>=◌ pure
  after-Held (ok id) s p one =
      elim (came clone.0 ((clone_if_moved-Returns route id).from (store ctx rt s))) [
        | with_error x e ↦ rw e (record {
          held_config = frame.same_config;
          held_used = used;
          held_once = λ n eq. absurd (cc (eq));
        })
        | with_value u e ↦ rw e (record {
          held_config = frame.same_config;
          held_used = used;
          held_once = λ n eq. rw frame.same_allocator (once s.manager n (one n (cc (eq))));
        })
      ]
    where
      clone : Result (Unit {0}) × Runtime
      clone = clone_if_moved route id (store ctx rt s)

      frame : Frames (store ctx rt s) clone.1
      frame = (clone_if_moved-Frames route id).at (store ctx rt s)

      used : (j : ℕ) → InUse rt j → InUse clone.1 j
      used j h = rw frame.same_allocator (spared-InUse rt.l1_allocator s.manager j p.0 h)
  after-Held (err e) s p one = record {
    held_config = refl;
    held_used = λ j h. spared-InUse rt.l1_allocator s.manager j p h;
    held_once = λ n eq. absurd (cc (eq));
  }
  after-Held stuck s p one = absurd (cc (p))

pub prepare_block_for_write-Held :
    (ctx lb : ℕ) (rt : Runtime)
    → Settled rt
    → Held rt (prepare_block_for_write ctx lb rt).0 (prepare_block_for_write ctx lb rt).1
unfolding prepare_block_for_write ◌>>=◌ in_context
prepare_block_for_write-Held ctx lb rt h = elim (routed ctx lb rt) [
  | inl (e, failed) ↦
      rw failed
        (record { held_config = refl; held_used = λ j u. u; held_once = λ n eq. absurd (cc (eq)) })
  | inr (c, r, done, found, int, at) ↦
      rw (done, int, found)
        (after-Held r ctx rt _ _
          (prepare_block_for_write-Preparing (pos lb) r.physical_block_id (session rt c)
            h.loose.valid at)
          (λ n gives.
            prepare_block_for_write-holds (pos lb) r.physical_block_id n (session rt c)
              h.loose.valid at gives))
]
