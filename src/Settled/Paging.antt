-- ===== src/Settled/Paging.antt =====
-- The calls that page, pin or touch blocks keep a runtime settled.
use mmu.Prelude.{
  ℕ, ℤ, negsuc, ◌≡◌, refl, arith, Bool, Option, none, some, inl, inr, Bool-cases, Option-cases,
  ◌==◌,
}
use mmu.Types.{ptr, Tier, Error, PhysicalRoute}
use mmu.Exec.{or_same}
use mmu.Exec.Keeps.{Keeps, keeps_rules}
use mmu.Exec.Returns.{Returns, returns_rules}
use mmu.BlockDirectory
use mmu.BlockDirectory.{BlockDirectory, BlockMeta}
use mmu.ChunkPool.{release_page}
use mmu.Runtime.{Runtime, Pool, directory}
use mmu.Paging.{acquire_page, sync_l1_to_l2}
use mmu.Cow.{clone_block_data_for_cow}
use mmu.Frame.{acquire_page-Frames, directory-Frames, touch_block-Frames, sync_l1_to_l2-Frames}
use mmu.Frame.Pools.{acquire_page-Returns}
use mmu.Frame.Residency.{clone_block_data_for_cow-Frames}
use mmu.Residency.Flags.{flags_of, mutable_get-flags_same}
use mmu.Residency.Calm.{
  flags, Calm, Calm-order, acquire_page-Calm, copy_or_zero-Calm, backing-Calm, slot-Calm,
  touch_block-Calm, sync_l1_to_l2-Calm, sync_l1_to_l2-Returns, write_meta-Calm,
}
use mmu.Api.Mapping.{direct, map_routed, unmap_routed}
use mmu.Settled.{Settled, Calm-SettledBut}
use mmu.Settled.Rules.{Settles, Settles-Calm, settles_rules}
use mmu.Settled.Steps.{ensure_resident_in_l1-Settles}

acquire_page-Settles : (p : Pool) (id : ℤ) → Settles (acquire_page p id ptr)
acquire_page-Settles p id =
    Settles-Calm (acquire_page p id ptr) (acquire_page-Frames p id ptr) (acquire_page-Calm p id)
      (acquire_page-Returns p id ptr)

sync_l1_to_l2-Settles : (id : ℤ) → Settles (sync_l1_to_l2 id)
sync_l1_to_l2-Settles id =
    Settles-Calm (sync_l1_to_l2 id) (sync_l1_to_l2-Frames id) (sync_l1_to_l2-Calm id)
      (sync_l1_to_l2-Returns id)

dirty-Calm :
    (id : ℤ) (b : Bool) (rt : Runtime)
    → Calm rt (directory (λ d. BlockDirectory.set_dirty d id b) rt)
unfolding BlockDirectory.set_dirty
dirty-Calm id b rt = write_meta-Calm id _ rt (λ m. refl)

pub tier-Calm :
    (id : ℤ) (t : Tier) (rt : Runtime)
    → Calm rt (directory (λ d. BlockDirectory.set_tier d id t) rt)
unfolding BlockDirectory.set_tier
tier-Calm id t rt = write_meta-Calm id _ rt (λ m. refl)

-- A pool without a page.
pub released-Calm :
    (id : ℤ) (rt : Runtime) → Calm rt (record rt { l1_pool = release_page rt.l1_pool id })
released-Calm id rt = ground arith

pub clone-Calm : (src : ℤ) (t : Tier) (dst : ℤ) → Keeps Calm (clone_block_data_for_cow src t dst)
unfolding clone_block_data_for_cow
clone-Calm src t dst =
    search
      (
        keeps_rules, Calm-order, acquire_page-Calm, copy_or_zero-Calm, backing-Calm, slot-Calm,
        released-Calm,
      )
      depth 40

pub clone-Returns : (src : ℤ) (t : Tier) (dst : ℤ) → Returns (clone_block_data_for_cow src t dst)
unfolding clone_block_data_for_cow
clone-Returns src t dst = search (returns_rules, acquire_page-Returns) depth 40

pub clone_block_data_for_cow-Settles :
    (src : ℤ) (t : Tier) (dst : ℤ) → Settles (clone_block_data_for_cow src t dst)
clone_block_data_for_cow-Settles src t dst =
    Settles-Calm (clone_block_data_for_cow src t dst) (clone_block_data_for_cow-Frames src t dst)
      (clone-Calm src t dst) (clone-Returns src t dst)

-- A call on the directory that leaves the flags alone.
direct-settles :
    (f : BlockDirectory → Option BlockDirectory) (e : Error) (rt : Runtime)
    (o : Option BlockDirectory)
    → f rt.block_directory ≡ o
    → flags_of (or_same rt.block_directory o).metas ≡ flags rt
    → Settled rt
    → Settled (direct f e rt).1
direct-settles f e rt none eq same h = rw (eq, direct) h
direct-settles f e rt (some d) eq same h =
    rw (eq, direct)
      (Calm-SettledBut (negsuc 0) rt _ h (ground arith)
        (record { same_flags = same; calm_count = refl; calm_limit = refl }))

direct-Settles :
    (f : BlockDirectory → Option BlockDirectory) (e : Error)
    → ((d : BlockDirectory) → flags_of (or_same d (f d)).metas ≡ flags_of d.metas)
    → Settles (direct f e)
direct-Settles f e same = record {
  settles = λ rt h. (
    direct-settles f e rt (f rt.block_directory) refl (same rt.block_directory) h,
    elim (Option-cases (f rt.block_directory)) [
      | inl eq ↦ rw (eq, direct) refl
      | inr (d, eq) ↦ rw (eq, direct) refl
    ],
  );
}

pub increment-flags :
    (id : ℤ) (d : BlockDirectory)
    → flags_of (or_same d (BlockDirectory.increment_pin_count d id)).metas ≡ flags_of d.metas
unfolding BlockDirectory.increment_pin_count
increment-flags id d = mutable_get-flags_same d id _ (λ m. refl)

decrement-flags :
    (id : ℤ) (d : BlockDirectory)
    → flags_of (or_same d (BlockDirectory.decrement_pin_count d id)).metas ≡ flags_of d.metas
unfolding BlockDirectory.decrement_pin_count
decrement-flags id d = elim (Option-cases (BlockDirectory.get d id)) [
  | inl e ↦ rw e refl
  | inr (m, e) ↦ elim (Bool-cases (m.pin_count == 0)) [
    | inl z ↦ rw (e, z) refl
    | inr z ↦ rw (e, z) (mutable_get-flags_same d id _ (λ m. refl))
  ]
]

increment-Settles :
    (id : ℤ) (e : Error) → Settles (direct (λ d. BlockDirectory.increment_pin_count d id) e)
increment-Settles id e =
    direct-Settles (λ d. BlockDirectory.increment_pin_count d id) e (increment-flags id)

decrement-Settles :
    (id : ℤ) (e : Error) → Settles (direct (λ d. BlockDirectory.decrement_pin_count d id) e)
decrement-Settles id e =
    direct-Settles (λ d. BlockDirectory.decrement_pin_count d id) e (decrement-flags id)

pub map_routed-Settles :
    (lb map_flags : ℕ) (r : PhysicalRoute) → Settles (map_routed lb map_flags r)
unfolding map_routed
map_routed-Settles lb map_flags r =
    search
      (
        settles_rules, ensure_resident_in_l1-Settles, acquire_page-Settles, increment-Settles,
        touch_block-Frames, touch_block-Calm,
      )
      depth 30

pub unmap_routed-Settles : (id : ℤ) (map_flags : ℕ) → Settles (unmap_routed id map_flags)
unfolding unmap_routed
unmap_routed-Settles id map_flags =
    search
      (
        settles_rules, decrement-Settles, sync_l1_to_l2-Settles, directory-Frames, dirty-Calm,
        touch_block-Frames, touch_block-Calm,
      )
      depth 40
