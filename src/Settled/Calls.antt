-- ===== src/Settled/Calls.antt =====
-- The calls that create, fork and destroy contexts, allocate, map and unmap keep a runtime settled.
use mmu.Prelude.{ℕ, negsuc, refl, sym, ◌∙◌, inl, inr, Option-cases}
use mmu.Types.{ptr, MappedBlock}
use mmu.Exec.{◌>>=◌}
use mmu.Context
use mmu.Context.{Context, Session, entries_of}
use mmu.Context.Spares.{Spares-refl, retain_ids-Spares, release_all-Sound}
use mmu.Context.Fork.{entries}
use mmu.Runtime.{Runtime, find_context}
use mmu.Api.{create_context, fork_context, destroy_context, resolve_routing}
use mmu.Api.Mapping.{map_logical_block, unmap_logical_block}
use mmu.Settled.{Settled, moved-SettledBut, reclaim-Settled}
use mmu.Settled.Rules.{Settles, settles_rules}
use mmu.Settled.Paging.{map_routed-Settles, unmap_routed-Settles}
use mmu.Settled.Blocks.{routed, prepare_block_for_write-Settles}

pub create_context-Settles : Settles create_context
unfolding create_context
create_context-Settles = record {
  settles = λ rt h. (
    moved-SettledBut (negsuc 0) rt rt.l1_allocator _ h
        (Spares-refl (negsuc 0) rt.l1_allocator h.loose.valid),
    refl,
  );
}

pub fork_context-Settles : (ctx : ℕ) → Settles (fork_context ctx)
unfolding fork_context Context.fork ◌>>=◌
fork_context-Settles ctx = record {
  settles = λ rt h. elim (Option-cases (find_context ctx rt)) [
    | inl e ↦ rw e (h, refl)
    | inr (c, e) ↦ rw e (
      moved-SettledBut (negsuc 0) rt _ _ h
          (retain_ids-Spares (entries c) rt.l1_allocator h.loose.valid),
      refl,
    )
  ];
}

pub destroy_context-Settled :
    (ctx : ℕ) (rt : Runtime) → Settled rt → Settled (destroy_context ctx rt)
unfolding destroy_context Context.release_all_blocks
destroy_context-Settled ctx rt h = elim (Option-cases (find_context ctx rt)) [
  | inl e ↦ rw e h
  | inr (c, e) ↦
      let sound = release_all-Sound (entries c) rt.l1_allocator h.loose.valid in
      rw e (
        reclaim-Settled _ (record {
          bounded = record {
            counted = h.loose.bounded.counted;
            within = h.loose.bounded.within;
            narrow = h.loose.bounded.narrow;
          };
          valid = sound.sound_valid;
          blocks = h.loose.blocks ∙ sym sound.sound_capacity;
          capacity = h.loose.capacity ∙ sym sound.sound_capacity;
        }))
]

lift-Settles : (ctx lb : ℕ) → Settles (resolve_routing ctx lb ptr)
lift-Settles ctx lb = record {
  settles = λ rt h. elim (routed ctx lb rt) [
    | inl (e, failed) ↦ rw failed (h, refl)
    | inr (c, r, done, found, int, at) ↦ rw done (h, refl)
  ];
}

pub map_logical_block-Settles :
    (ctx lb map_flags : ℕ) → Settles (map_logical_block ctx lb map_flags)
unfolding map_logical_block
map_logical_block-Settles ctx lb map_flags =
    search (settles_rules, lift-Settles, prepare_block_for_write-Settles, map_routed-Settles) depth
      30

pub unmap_logical_block-Settles : (ctx : ℕ) (b : MappedBlock) → Settles (unmap_logical_block ctx b)
unfolding unmap_logical_block
unmap_logical_block-Settles ctx b =
    search (settles_rules, lift-Settles, unmap_routed-Settles) depth 30
