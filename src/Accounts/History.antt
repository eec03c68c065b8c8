-- ===== src/Accounts/History.antt =====
-- Every call keeps the reference counts in accord with the page tables, but for an allocation of
-- more blocks than are free.
use mmu.Prelude.{ℕ, ◌≤◌, none, some, length}
use mmu.Types.{PagePtr}
use mmu.ChunkPool.{Page}
use mmu.Runtime.{Runtime}
use mmu.Api.{Handle}
use mmu.Accounts.{Accounts}
use mmu.Accounts.Calls.{
  create_context-Keeping, fork_context-Keeping, destroy_context-Keeping, allocate_blocks-Accounts,
  release_logical_block-Keeping, prepare_block_for_write-Keeping, map_logical_block-Keeping,
  unmap_logical_block-Keeping, update_mapping-Keeping,
}
use mmu.History.{Action, perform, At, Handlers, Allocates, perform-At, client_write}

-- An allocation asks for no more than the blocks that are free.
abbrev pub Fits : Action → Handle → Type 0
Fits (Action.allocate ctx n) (some rt) = n ≤ length rt.l1_allocator.free_list
Fits _ mmu = Unit

abbrev pub AccountsAt : Handle → Type 0
AccountsAt = At Accounts

write-Keeping :
    (q : PagePtr) (size : ℕ) (bytes : Page) (rt : Runtime)
    → Accounts rt
    → Accounts (client_write q size bytes rt)
write-Keeping q size bytes rt h = record { backed = h.backed; valid = h.valid }

handlers : Handlers Accounts
handlers = record {
  create_context = create_context-Keeping;
  destroy_context = destroy_context-Keeping;
  fork_context = fork_context-Keeping;
  release_block = release_logical_block-Keeping;
  prepare_block = prepare_block_for_write-Keeping;
  map_block = map_logical_block-Keeping;
  unmap_block = unmap_logical_block-Keeping;
  update_mapping = update_mapping-Keeping;
  client_write = λ q size bytes rt. write-Keeping q size bytes rt;
}

Fits-Allocates : (c : Action) (mmu : Handle) → Fits c mmu → Allocates Accounts c mmu
Fits-Allocates (Action.allocate ctx n) none fits = tt
Fits-Allocates (Action.allocate ctx n) (some rt) fits = allocate_blocks-Accounts ctx n rt fits
Fits-Allocates Action.create mmu fits = tt
Fits-Allocates (Action.destroy ctx) mmu fits = tt
Fits-Allocates (Action.fork ctx) mmu fits = tt
Fits-Allocates (Action.release ctx lb) mmu fits = tt
Fits-Allocates (Action.prepare ctx lb) mmu fits = tt
Fits-Allocates (Action.map_block ctx lb flags) mmu fits = tt
Fits-Allocates (Action.map_blocks ctx lbs flags) mmu fits = tt
Fits-Allocates (Action.unmap_block ctx b) mmu fits = tt
Fits-Allocates (Action.unmap_blocks ctx bs) mmu fits = tt
Fits-Allocates (Action.remap ctx lb id tier) mmu fits = tt
Fits-Allocates (Action.write q size bytes) mmu fits = tt

-- Every call keeps the accounts, whether it succeeds or fails, but for an allocation of more blocks
-- than are free.
pub perform-AccountsAt :
    (c : Action) (mmu : Handle) → Fits c mmu → AccountsAt mmu → AccountsAt (perform c mmu)
perform-AccountsAt c mmu fits = perform-At handlers c mmu (Fits-Allocates c mmu fits)
