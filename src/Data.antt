-- ===== src/Data.antt =====
-- The bytes of the blocks. This file: what the growth of a pool leaves alone.
pub mod Acquiring
pub mod Copies
pub mod Moves
pub mod Reclaim
pub mod Promotion
pub mod Fresh
pub mod Sharing
pub mod Guarantees
pub mod Reading
pub mod Source
pub mod Filling
pub mod Finishing
pub mod Clone
pub mod Housed
pub mod Preparing
pub mod Client
pub mod Sizes
pub mod Writing
use mmu.Prelude.{
  ℕ, ◌+◌, pos, index, in_range, ◌≡◌, refl, sym, ap, ◌∙◌, subst, arith, leb, ◌&&◌, Bool, true, false,
  not, ◌||◌, List, [], ◌∷◌, Option, none, some, get_elem?, get_elem?-some, get_elem?-set_self,
  get_elem?-set_ne, ◌==◌, length, ltb, ◌<◌, Option-cases, Bool-cases, inl, inr, lt_of_get_elem?,
  if◌then◌else◌,
}
use mmu.Types.{PagePtr, Result, ok, err, Error, ptr, invalid_argument, out_of_memory}
use mmu.Exec.{◌>>=◌}
use mmu.Exec.Keeps.{Keeps, Order, keeps_rules}
use mmu.Exec.Returns.{came, with_value, with_error}
use mmu.Config.{Config}
use mmu.ChunkPool
use mmu.ChunkPool.{ChunkPool, owner, slot_of}
use mmu.Runtime.{Runtime, Pool, pool_of, with_pool}
use mmu.Paging.{
  request, grow, allocate_chunk, refill, commit_page, pop_free, take_page, acquire_slot,
  acquire_page, is_empty, bounded_l2,
}
use mmu.Paging.Apart.{IsApart, grow-IsApart, take_page-IsApart, slot_owner, owner-slot}
use mmu.Paging.Pages.{content, Same, content-owner, take_page-content, owner-set_ne}
use mmu.Frame.Pools.{refill-Returns}

-- No page of either pool is used twice.
abbrev pub Apart : Runtime → Type 0
Apart rt = (p : Pool) → IsApart (pool_of rt p)

pub by_pool : (P : Pool → Type 0) → P Pool.l1_pool → P Pool.l2_pool → (p : Pool) → P p
by_pool P a b Pool.l1_pool = a
by_pool P a b Pool.l2_pool = b

-- A pool may have got more free pages.
pub record Grows (a b : Runtime) : Type 0 where
  pub grown_apart : (p : Pool) → IsApart (pool_of a p) → IsApart (pool_of b p)
  pub grown_owners : (p : Pool) → (pool_of b p).owner_pages ≡ (pool_of a p).owner_pages
  pub grown_memory : (p : Pool) → (pool_of b p).memory ≡ (pool_of a p).memory
  pub grown_config : b.config ≡ a.config

Grows-order : Order Grows
Grows-order = record {
  rel_refl = λ a. record {
    grown_apart = λ p h. h;
    grown_owners = λ p. refl;
    grown_memory = λ p. refl;
    grown_config = refl;
  };
  rel_trans = λ a b c f g. record {
    grown_apart = λ p h. g.grown_apart p (f.grown_apart p h);
    grown_owners = λ p. g.grown_owners p ∙ f.grown_owners p;
    grown_memory = λ p. g.grown_memory p ∙ f.grown_memory p;
    grown_config = g.grown_config ∙ f.grown_config;
  };
}

request-Grows : (n : ℕ) → Keeps Grows (request n)
request-Grows n = record {
  at = λ rt. record {
    grown_apart = by_pool _ (λ h. h) (λ h. h);
    grown_owners = by_pool _ refl refl;
    grown_memory = by_pool _ refl refl;
    grown_config = refl;
  };
}

grow-Grows : (p : Pool) (n : ℕ) (rt : Runtime) → Grows rt (with_pool rt p (grow (pool_of rt p) n))
unfolding grow
grow-Grows Pool.l1_pool n rt = record {
  grown_apart = by_pool _ (λ h. grow-IsApart rt.l1_pool n h) (λ h. h);
  grown_owners = by_pool _ refl refl;
  grown_memory = by_pool _ refl refl;
  grown_config = refl;
}
grow-Grows Pool.l2_pool n rt = record {
  grown_apart = by_pool _ (λ h. h) (λ h. grow-IsApart rt.l2_pool n h);
  grown_owners = by_pool _ refl refl;
  grown_memory = by_pool _ refl refl;
  grown_config = refl;
}

allocate_chunk-Grows : (p : Pool) (n : ℕ) → Keeps Grows (allocate_chunk p n)
unfolding allocate_chunk
allocate_chunk-Grows p n = search (keeps_rules, Grows-order, request-Grows, grow-Grows) depth 20

pub refill-Grows : (p : Pool) → Keeps Grows (refill p)
unfolding refill
refill-Grows p = search (keeps_rules, Grows-order, allocate_chunk-Grows) depth 12
