-- ===== src/Accounts/RefCounts.antt =====
-- What a reference count means to a client, after any history of calls.
use mmu.Prelude.{ℕ, ◌<◌, pos, Option, none, some, ◌≡◌, arith, length}
use mmu.Types.{OutPtr, ok}
use mmu.Config.{Config, Host, resolve}
use mmu.BlockManager.{ref_count}
use mmu.Runtime.{Runtime}
use mmu.Api.{Handle, mmu_init}
use mmu.Api.Queries.{mmu_get_ref_count}
use mmu.Accounts.{Accounts, total, new_runtime-Accounts}
use mmu.History.{Action, perform}
use mmu.Accounts.History.{Fits, AccountsAt, perform-AccountsAt}

-- One call of a client, an allocation asking for no more than is free.
pub data Step (mmu mmu' : Handle) : Type 0 where
  call : (c : Action) → Fits c mmu → mmu' ≡ perform c mmu → Step mmu mmu'

pub data Reach (mmu : Handle) : Handle → Type 0 where
  start : Reach mmu mmu
  next : {u v : Handle} → Reach mmu u → Step u v → Reach mmu v

Step-AccountsAt : {mmu mmu' : Handle} → Step mmu mmu' → AccountsAt mmu → AccountsAt mmu'
Step-AccountsAt {mmu} (call c fits e) h = rw e (perform-AccountsAt c mmu fits h)

Reach-AccountsAt : {mmu mmu' : Handle} → AccountsAt mmu → Reach mmu mmu' → AccountsAt mmu'
Reach-AccountsAt h start = h
Reach-AccountsAt h (next r s) = Step-AccountsAt s (Reach-AccountsAt h r)

-- A new runtime accounts for its references: there are none.
mmu_init-Accounts :
    (h : Host) (c : Option Config) (o : OutPtr) (rt : Runtime)
    → mmu_init h c o ≡ ok rt
    → Accounts rt
unfolding mmu_init
mmu_init-Accounts h none o rt e = absurd (cc)
mmu_init-Accounts h (some c) o rt e = ground (arith, new_runtime-Accounts h (resolve h c))

-- After any history of calls on a new runtime, in which no allocation asks for more blocks than are
-- free, the count that `mmu_get_ref_count` reports for a block in range is the number of logical
-- blocks, of all contexts, that are mapped to it.
pub mmu_get_ref_count-total :
    (h : Host) (c : Option Config) (o : OutPtr) (rt rt' : Runtime) (i : ℕ)
    → mmu_init h c o ≡ ok rt
    → Reach (some rt) (some rt')
    → i < length rt'.l1_allocator.ref_counts
    → mmu_get_ref_count (pos i) (some rt') ≡ pos (total i rt'.contexts)
unfolding mmu_get_ref_count ref_count
mmu_get_ref_count-total h c o rt rt' i e r bound =
    let a : Accounts rt' = Reach-AccountsAt (mmu_init-Accounts h c o rt e) r in
    ground (arith, a.backed i)
