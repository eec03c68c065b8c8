-- ===== src/Accounts.antt =====
-- Every reference is accounted for: the count of a block is the number of page table entries of
-- all contexts that name it.
pub mod Calls
pub mod History
pub mod RefCounts
use mmu.Prelude.{
  ℕ, zero, suc, ◌+◌, ◌≤◌, ℤ, pos, negsuc, ◌==ℤ◌, Bool, true, false, List, [], ◌∷◌, Option, none,
  some, ◌≡◌, refl, ap, ◌⊎◌, inl, inr, arith, length, get_elem?, set, tally, to_nat, ◌==◌,
  if◌then◌else◌, Option-cases, replicate,
}
use mmu.Types.{Result}
use mmu.Exec.{Exec}
use mmu.Exec.Keeps.{Keeps, Order}
use mmu.BlockManager
use mmu.BlockManager.{BlockManager, count_at}
use mmu.BlockManager.Invariant.{IsValid, init-IsValid}
use mmu.Context.{Context, Session, entries_of, fork, release_all_blocks}
use mmu.Context.Balance.{mentions, Moves}
use mmu.Context.Releases.{Covers, GivesBack, release_all-GivesBack}
use mmu.Context.Fork.{entries, fork_counts, fork_covered}
use mmu.Config.{Config, Host}
use mmu.Runtime.{
  Runtime, new_runtime, find, assign, erase, find_context, in_context, run_session, store, session,
}
use mmu.Frame.{Frames}

abbrev pub total : ℕ → List (ℕ × Context) → ℕ
total j [] = 0
total j ((h, c) ∷ t) = mentions j (entries c) + total j t

pub record Accounts (rt : Runtime) : Type 0 where
  pub backed : (j : ℕ) → count_at rt.l1_allocator j ≡ total j rt.contexts
  pub valid : IsValid rt.l1_allocator

-- A step that keeps the accounts.
abbrev pub Keeping : Runtime → Runtime → Type 0
Keeping rt rt' = Accounts rt → Accounts rt'

pub Keeping-order : Order Keeping
Keeping-order = record { rel_refl = λ s h. h; rel_trans = λ s t u f g h. g (f h) }

count_at-replicate :
    (n j : ℕ) → count_at (record { ref_counts = replicate n 0; free_list = [] }) j ≡ 0
count_at-replicate zero j = refl
count_at-replicate (suc n) zero = refl
count_at-replicate (suc n) (suc j) = count_at-replicate n j

pub new_runtime-Accounts : (h : Host) (c : Config) → Accounts (new_runtime h c)
unfolding new_runtime BlockManager.init
new_runtime-Accounts h c = record {
  backed = λ j. count_at-replicate c.l1_block_count j;
  valid = init-IsValid c.l1_block_count;
}

pub Frames-Accounts : (rt rt' : Runtime) → Frames rt rt' → Keeping rt rt'
Frames-Accounts rt rt' f a = record {
  backed = λ j. rw (f.same_allocator, f.same_contexts) (a.backed j);
  valid = rw f.same_allocator a.valid;
}

total-assign :
    (j h : ℕ) (c d : Context) (t : List (ℕ × Context))
    → find h t ≡ some c
    → total j (assign h d t) + mentions j (entries c) ≡ total j t + mentions j (entries d)
total-assign j h c d [] e = absurd (cc)
total-assign j h c d ((k, b) ∷ t) e = ground (arith, total-assign j h c d t)

total-erase :
    (j h : ℕ) (c : Context) (t : List (ℕ × Context))
    → find h t ≡ some c
    → total j (erase h t) + mentions j (entries c) ≡ total j t
total-erase j h c [] e = absurd (cc)
total-erase j h c ((k, b) ∷ t) e = ground (arith, total-erase j h c t)

-- Each context's entries are backed by references.
pub find-Covers :
    (rt : Runtime) (h : ℕ) (c : Context)
    → Accounts rt
    → find_context h rt ≡ some c
    → Covers rt.l1_allocator (entries c)
unfolding find_context
find-Covers rt h c a e j = ground (arith, a.backed j, total-erase j h c rt.contexts)

find-eq :
    (rt : Runtime) (h : ℕ) (c : Context) → find_context h rt ≡ some c → find h rt.contexts ≡ some c
unfolding find_context
find-eq rt h c e = ground arith

-- A method that moves the counts with the entries keeps the accounts of the whole.
module _ {A : Type 0} (h : ℕ) (m : Exec Session A) (rt : Runtime) where
  stored-Accounts :
      (c : Context)
      → find_context h rt ≡ some c
      → Moves (session rt c) (m (session rt c)).1
      → Accounts rt
      → Accounts (store h rt (m (session rt c)).1)
  stored-Accounts c e v a = record {
    backed = λ j. omega (
      arith,
      a.backed j,
      v.balanced j,
      total-assign j h c (m (session rt c)).1.context rt.contexts (find-eq rt h c e),
    );
    valid = v.valid;
  }

  run_session-Accounts :
      (o : Option Context)
      → find_context h rt ≡ o
      → ((c : Context) → Moves (session rt c) (m (session rt c)).1)
      → Accounts rt
      → Accounts (run_session h m rt o).1
  run_session-Accounts none e v a = a
  run_session-Accounts (some c) e v a = stored-Accounts c e (v c) a

  pub in_context-Accounts :
      ((c : Context) → Moves (session rt c) (m (session rt c)).1)
      → Accounts rt
      → Accounts (in_context h m rt).1
  unfolding in_context
  in_context-Accounts v a = run_session-Accounts (find_context h rt) refl v a

pub in_context-Keeping :
    {A : Type 0} (h : ℕ) (m : Exec Session A)
    → ((s : Session) → IsValid s.manager → Moves s (m s).1)
    → Keeps Keeping (in_context h m)
in_context-Keeping h m moves = record {
  at = λ rt a. in_context-Accounts h m rt (λ c. moves (session rt c) a.valid) a;
}

-- A fork, once the child is in the table.
pub fork-Accounts :
    (rt : Runtime) (h k : ℕ) (c : Context)
    → Accounts rt
    → find_context h rt ≡ some c
    → Accounts (record rt {
      l1_allocator = (fork c rt.l1_allocator).manager;
      contexts = (k, (fork c rt.l1_allocator).context) ∷ rt.contexts;
    })
fork-Accounts rt h k c a e =
    let (same, counts, free, v) = fork_counts c rt.l1_allocator a.valid in
    let more = fork_covered c rt.l1_allocator a.valid (find-Covers rt h c a e) in
    record { backed = λ j. rw same (omega (arith, more j, a.backed j)); valid = v }

-- The destruction of a context, once it has left the table.
pub destroy-Accounts :
    (rt : Runtime) (h : ℕ) (c : Context)
    → Accounts rt
    → find_context h rt ≡ some c
    → Accounts (record rt {
      l1_allocator = release_all_blocks c rt.l1_allocator;
      contexts = erase h rt.contexts;
    })
unfolding release_all_blocks
destroy-Accounts rt h c a e =
    let g = release_all-GivesBack (entries c) rt.l1_allocator a.valid (find-Covers rt h c a e) in
    record {
      backed = λ j.
          omega (arith, g.counts j, a.backed j, total-erase j h c rt.contexts (find-eq rt h c e));
      valid = g.valid;
    }
