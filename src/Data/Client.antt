-- ===== src/Data/Client.antt =====
-- What a client's write to a page of L1 reaches.
use mmu.Prelude.{
  ℕ, ◌+◌, ◌*◌, ◌≤◌, ◌<◌, ◌≡◌, refl, arith, false, some, ◌==◌, ◌&&◌, leb, ltb, get_elem?,
  Option-cases, Bool-cases, inl, inr,
}
use native.Mathlib.Nat.{mul-le-mul_right}
use mmu.Types.{PagePtr}
use mmu.ChunkPool.{Page, owner, same_ptr, bytes_or_zero}
use mmu.Runtime.{Runtime, Pool, pool_of}
use mmu.Paging.Apart.{owners_differ}
use mmu.Paging.Pages.{Same, content}
use mmu.Residency.Calm.{flags}
use mmu.Data.{Apart, by_pool}
use mmu.Data.Moves.{home, block_data}
use mmu.History.{client_write, reaches}

-- Blocks of one chunk do not overlap.
outside_block :
    (a b block_size size k : ℕ)
    → (a == b) ≡ false
    → k < block_size
    → size ≤ block_size
    → (leb (a * block_size) (b * block_size + k)
        && ltb (b * block_size + k) (a * block_size + size))
      ≡ false
outside_block a b block_size size k ne lt fits = elim (Bool-cases (ltb a b)) [
  | inl below ↦
      let past : (a + 1) * block_size ≤ b * block_size =
        mul-le-mul_right block_size (ground (arith, below)) in
      ground (arith, past)
  | inr other ↦
      let before : (b + 1) * block_size ≤ a * block_size =
        mul-le-mul_right block_size (ground (arith, other, ne)) in
      ground (arith, before)
]

stays_inside :
    (q r : PagePtr) (block_size size k : ℕ)
    → same_ptr q r ≡ false
    → k < block_size
    → size ≤ block_size
    → reaches block_size q size r k ≡ false
stays_inside q r block_size size k other lt fits = elim (Bool-cases (q.chunk == r.chunk)) [
  | inr e ↦ rw e refl
  | inl e ↦
      let ne : (q.block == r.block) ≡ false = rw e at other in
      rw e (outside_block q.block r.block block_size size k ne lt fits)
]

-- A write of at most one block's bytes to the L1 page of block `n` leaves the bytes of the other
-- blocks alone.
pub written-elsewhere :
    (n j : ℕ) (q : PagePtr) (size : ℕ) (bytes : Page) (rt : Runtime)
    → owner rt.l1_pool n ≡ some q
    → Apart rt
    → (n == j) ≡ false
    → size ≤ rt.config.block_size_bytes
    → Same rt.config.block_size_bytes
        (block_data (client_write q size bytes rt) j)
        (block_data rt j)
unfolding bytes_or_zero owner
written-elsewhere n j q size bytes rt own apart ne fits k lt =
    by_pool
      (λ p. content (pool_of (client_write q size bytes rt) p) j k ≡ content (pool_of rt p) j k)
      in_l1 refl (home (get_elem? (flags rt) j))
  where
    in_l1 : content (client_write q size bytes rt).l1_pool j k ≡ content rt.l1_pool j k
    in_l1 = elim (Option-cases (owner rt.l1_pool j)) [
      | inl e ↦ rw e refl
      | inr (r, e) ↦
          let differ = owners_differ rt.l1_pool n j q r (apart Pool.l1_pool) ne own e in
          rw e (rw (stays_inside q r rt.config.block_size_bytes size k differ lt fits) refl)
    ]
