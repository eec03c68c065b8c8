-- ===== src/Runtime.antt =====
-- `struct mmu_runtime_t` of src/mmu_api.cpp: the state behind an `mmu_handle_t`.
use mmu.Prelude.{
  ℕ, ℤ, Bool, true, false, List, [], ◌∷◌, Option, none, some, ◌==◌, if◌then◌else◌, inc64,
}
use mmu.Types.{Result, err, bad_handle}
use mmu.Exec.{Exec, or_same}
use mmu.BlockManager
use mmu.BlockManager.{BlockManager}
use mmu.BlockDirectory
use mmu.BlockDirectory.{BlockDirectory, BlockMeta}
use mmu.Context.{Context, Session}
use mmu.Config.{Config, Host}
use mmu.ChunkPool
use mmu.ChunkPool.{ChunkPool}

-- `contexts` is the table from handles to contexts; `host` and the number of `new` requests so far
-- stand for the machine that the program runs on.
pub record Runtime : Type 0 where
  pub config : Config
  pub l1_allocator : BlockManager
  pub block_directory : BlockDirectory
  pub contexts : List (ℕ × Context)
  pub l1_pool : ChunkPool
  pub l2_pool : ChunkPool
  pub resident_limit : ℕ
  pub resident_count : ℕ
  pub epoch : ℕ
  pub host : Host
  pub requests : ℕ

unfoldable pub new_runtime : Host → Config → Runtime
new_runtime h cfg = record {
  config = cfg;
  l1_allocator = BlockManager.init cfg.l1_block_count;
  block_directory = BlockDirectory.init cfg.l1_block_count;
  contexts = [];
  l1_pool = ChunkPool.init cfg.l1_block_count;
  l2_pool = ChunkPool.init cfg.l1_block_count;
  resident_limit = cfg.l1_resident_block_limit;
  resident_count = 0;
  epoch = 0;
  host = h;
  requests = 0;
}

-- Which of the two pools a `ChunkPool*` points to.
pub data Pool : Type 0 where
  l1_pool l2_pool : Pool

-- IsL2Pool
abbrev pub is_l2_pool : Pool → Bool
is_l2_pool Pool.l1_pool = false
is_l2_pool Pool.l2_pool = true

abbrev pub pool_of : Runtime → Pool → ChunkPool
pool_of rt Pool.l1_pool = rt.l1_pool
pool_of rt Pool.l2_pool = rt.l2_pool

abbrev pub with_pool : Runtime → Pool → ChunkPool → Runtime
with_pool rt Pool.l1_pool p = record rt { l1_pool = p }
with_pool rt Pool.l2_pool p = record rt { l2_pool = p }

-- A call on the block directory, its result dropped.
abbrev pub directory : (BlockDirectory → Option BlockDirectory) → Runtime → Runtime
directory f rt = record rt { block_directory = or_same rt.block_directory (f rt.block_directory) }

-- Writes through the pointer that MutableBlockMeta gave.
abbrev pub write_meta : ℤ → (BlockMeta → BlockMeta) → Runtime → Runtime
write_meta block_id f = directory (λ d. BlockDirectory.mutable_get d block_id f)

-- BlockMetaFor
abbrev pub block_meta_for : ℤ → Runtime → Option BlockMeta
block_meta_for block_id rt = BlockDirectory.get rt.block_directory block_id

unfoldable pub touch_block : ℤ → Runtime → Runtime
touch_block physical_block_id rt =
    directory (λ d. BlockDirectory.set_last_access_epoch d physical_block_id (inc64 rt.epoch))
      (record rt { epoch = inc64 rt.epoch })

abbrev pub find : ℕ → List (ℕ × Context) → Option Context
find h [] = none
find h ((k, c) ∷ t) = if k == h then some c else find h t

-- Writes to a context through its handle, which is in the table.
abbrev pub assign : ℕ → Context → List (ℕ × Context) → List (ℕ × Context)
assign h c [] = []
assign h c ((k, d) ∷ t) = if k == h then (k, c) ∷ t else (k, d) ∷ assign h c t

abbrev pub erase : ℕ → List (ℕ × Context) → List (ℕ × Context)
erase h [] = []
erase h ((k, d) ∷ t) = if k == h then t else (k, d) ∷ erase h t

-- The null handle is 0.
unfoldable pub find_context : ℕ → Runtime → Option Context
find_context ctx rt = if ctx == 0 then none else find ctx rt.contexts

abbrev pub session : Runtime → Context → Session
session rt c = record { manager = rt.l1_allocator; context = c }

abbrev pub store : ℕ → Runtime → Session → Runtime
store ctx rt s = record rt { l1_allocator = s.manager; contexts = assign ctx s.context rt.contexts }

abbrev pub run_session :
    {A : Type 0} → ℕ → Exec Session A → Runtime → Option Context → Result A × Runtime
run_session ctx m rt none = (err bad_handle, rt)
run_session ctx m rt (some c) = let (r, s) = m (session rt c) in (r, store ctx rt s)

-- A method of `context->impl`, for the context that FindContext finds.
unfoldable pub in_context : {A : Type 0} → ℕ → Exec Session A → Exec Runtime A
unfolding find_context
in_context ctx m rt = run_session ctx m rt (find_context ctx rt)
