-- ===== src/Frame/Pools.antt =====
-- What taking a page of a pool leaves alone: the block directory, the count of resident blocks and
-- the epoch. It always returns.
use mmu.Prelude.{ℕ, ℤ, ◌≡◌, refl, arith, List, [], ◌∷◌, Option, none, some}
use mmu.Types.{PagePtr, OutPtr}
use mmu.Exec.{◌>>=◌}
use mmu.Exec.Keeps.{Keeps, Order, Keeps-pure, keeps_rules}
use mmu.Exec.Returns.{Returns, Returns-pure, returns_rules}
use mmu.Runtime.{Runtime, Pool}
use mmu.Paging.{allocate_chunk, refill, commit_page, pop_free, acquire_slot, acquire_page}

pub record Still (rt rt' : Runtime) : Type 0 where
  pub same_directory : rt'.block_directory ≡ rt.block_directory
  pub same_count : rt'.resident_count ≡ rt.resident_count
  pub same_resident_limit : rt'.resident_limit ≡ rt.resident_limit
  pub same_epoch : rt'.epoch ≡ rt.epoch

Still-refl : (rt : Runtime) → Still rt rt
Still-refl rt = ground arith

Still-trans : (a b c : Runtime) → Still a b → Still b c → Still a c
Still-trans a b c f g = ground arith

Still-order : Order Still
Still-order = record { rel_refl = Still-refl; rel_trans = Still-trans }

allocate_chunk-Still-at : (p : Pool) (n : ℕ) (rt : Runtime) → Still rt (allocate_chunk p n rt).1
unfolding allocate_chunk ◌>>=◌
allocate_chunk-Still-at Pool.l1_pool n rt = ground arith
allocate_chunk-Still-at Pool.l2_pool n rt = ground arith

allocate_chunk-Still : (p : Pool) (n : ℕ) → Keeps Still (allocate_chunk p n)
allocate_chunk-Still p n = record { at = allocate_chunk-Still-at p n }

refill-Still : (p : Pool) → Keeps Still (refill p)
unfolding refill
refill-Still p = search (keeps_rules, Still-order, allocate_chunk-Still) depth 12

pop_free-Still : (p : Pool) (i : ℕ) (free : List PagePtr) → Keeps Still (pop_free p i free)
unfolding pop_free
pop_free-Still p i [] = record { at = λ rt. ground arith }
pop_free-Still Pool.l1_pool i (q ∷ rest) = record { at = λ rt. ground arith }
pop_free-Still Pool.l2_pool i (q ∷ rest) = record { at = λ rt. ground arith }

commit_page-Still : (p : Pool) (i : ℕ) → Keeps Still (commit_page p i)
unfolding commit_page
commit_page-Still p i = search (keeps_rules, Still-order, refill-Still, pop_free-Still) depth 20

acquire_slot-Still : (p : Pool) (i : ℕ) (s : Option PagePtr) → Keeps Still (acquire_slot p i s)
acquire_slot-Still p i none = commit_page-Still p i
acquire_slot-Still p i (some q) = Keeps-pure Still-order q

pub acquire_page-Still : (p : Pool) (id : ℤ) (o : OutPtr) → Keeps Still (acquire_page p id o)
unfolding acquire_page
acquire_page-Still p id o = search (keeps_rules, Still-order, acquire_slot-Still) depth 20

allocate_chunk-Returns : (p : Pool) (n : ℕ) → Returns (allocate_chunk p n)
unfolding allocate_chunk ◌>>=◌
allocate_chunk-Returns p n = record { from = λ rt. ground arith }

pub refill-Returns : (p : Pool) → Returns (refill p)
unfolding refill
refill-Returns p = search (returns_rules, allocate_chunk-Returns) depth 12

pop_free-Returns : (p : Pool) (i : ℕ) (free : List PagePtr) → Returns (pop_free p i free)
unfolding pop_free
pop_free-Returns p i [] = record { from = λ rt. refl }
pop_free-Returns p i (q ∷ rest) = record { from = λ rt. refl }

commit_page-Returns : (p : Pool) (i : ℕ) → Returns (commit_page p i)
unfolding commit_page
commit_page-Returns p i = search (returns_rules, refill-Returns, pop_free-Returns) depth 20

acquire_slot-Returns : (p : Pool) (i : ℕ) (s : Option PagePtr) → Returns (acquire_slot p i s)
acquire_slot-Returns p i none = commit_page-Returns p i
acquire_slot-Returns p i (some q) = Returns-pure q

pub acquire_page-Returns : (p : Pool) (id : ℤ) (o : OutPtr) → Returns (acquire_page p id o)
unfolding acquire_page
acquire_page-Returns p id o = search (returns_rules, acquire_slot-Returns) depth 20
