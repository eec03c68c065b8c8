-- ===== src/Tests/Pages.antt =====
-- The pages and the bytes of a runtime of three blocks, of which one at most is resident in L1.
use mmu.Prelude.{ℕ, pos, ◌≡◌, refl, subst, false, List, [], ◌∷◌, none, some, get_elem?}
use mmu.Types.{ok, MappedBlock, ptr, PhysicalRoute, l2}
use mmu.Settled.{Settled}
use mmu.Settled.History.{SettledAt}
use mmu.Settled.Guarantees.{history-SettledAt}
use mmu.Tests.Histories.{booted_narrow}
use mmu.Api.Mapping.{map_routed}
use mmu.Data.Reading.{Reads, map_routed-Reads}
use mmu.ChunkPool.{owner, same_ptr}
use mmu.Runtime.{Runtime, Pool}
use mmu.Api.{Handle}
use mmu.History.{Action, performs}
use mmu.Residency.{ensure_resident_in_l1, register_fresh_block}
use mmu.Data.{Apart}
use mmu.Data.Promotion.{Intact, ensure_resident_in_l1-Intact}
use mmu.Cow.{clone_block_data_for_cow}
use mmu.Data.Clone.{clone_block_data_for_cow-Clones}
use mmu.Data.Finishing.{Clones}
use mmu.Data.Source.{IsHomed}
use mmu.Residency.Calm.{flags}
use mmu.Data.Fresh.{Zeroed, register_fresh_block-Zeroed}
use mmu.Data.Guarantees.{history-Apart, performs-own_pages}
use mmu.Tests.Runtimes.{roomy, small, booted, boots, code}

-- What a map of logical block `b` gave, where `b` is mapped to the physical block of that number.
abbrev mapped : ℕ → MappedBlock
mapped b = record {
  host_ptr = record { chunk = 0; block = 1 };
  size_bytes = 4;
  physical_block_id = pos b;
  logical_block_id = b;
  map_flags = 1;
}

-- Blocks 0 and 1 take turns in L1, so that both get a page of L2.
abbrev turns : List Action
turns =
    Action.create
    ∷ Action.allocate 1 2
    ∷ Action.map_block 1 0 1
    ∷ Action.unmap_block 1 (mapped 0)
    ∷ Action.map_block 1 1 1
    ∷ Action.unmap_block 1 (mapped 1)
    ∷ Action.map_block 1 0 1
    ∷ Action.unmap_block 1 (mapped 0)
    ∷ []

abbrev runtime_of : Handle → Runtime
runtime_of none = booted
runtime_of (some rt) = rt

abbrev turned : Runtime
turned = runtime_of (performs turns (some booted))

first_page : owner turned.l2_pool 0 ≡ some (record { chunk = 0; block = 1 })
unfolding code
first_page = refl

second_page : owner turned.l2_pool 1 ≡ some (record { chunk = 0; block = 0 })
unfolding code
second_page = refl

turns_run : performs turns (some booted) ≡ some turned
unfolding code
turns_run = refl

performs-own_pages_example :
    same_ptr (record { chunk = 0; block = 1 }) (record { chunk = 0; block = 0 }) ≡ false
performs-own_pages_example =
    performs-own_pages roomy (some small) ptr booted boots turns turned Pool.l2_pool 0 1
      (record { chunk = 0; block = 1 }) (record { chunk = 0; block = 0 }) turns_run refl first_page
      second_page

turned-Apart : Apart turned
turned-Apart = history-Apart roomy (some small) ptr booted boots turns turned turns_run

-- Block 1 is brought to L1, for which block 0 goes.
ensure_resident_in_l1-Intact_example : Intact turned (ensure_resident_in_l1 (pos 1) turned).1
ensure_resident_in_l1-Intact_example = ensure_resident_in_l1-Intact 1 turned turned-Apart

comes_to_l1 : (ensure_resident_in_l1 (pos 1) turned).0 ≡ ok tt
unfolding code
comes_to_l1 = refl

register_fresh_block-Zeroed_example : Zeroed 1 turned (register_fresh_block (pos 1) turned)
register_fresh_block-Zeroed_example = register_fresh_block-Zeroed 1 turned turned-Apart

turned-Settled : Settled turned
turned-Settled =
    subst SettledAt turns_run
      (history-SettledAt roomy (some small) ptr booted boots booted_narrow turns)

abbrev route : PhysicalRoute
route = record { tier = l2; physical_block_id = pos 1; byte_offset = 0 }

-- Block 1 is mapped for reading.
map_routed-Reads_example :
    Reads 1 turned (map_routed 1 1 route turned).0 (map_routed 1 1 route turned).1
map_routed-Reads_example =
    map_routed-Reads 1 1 1 route turned turned-Apart turned-Settled.loose.bounded refl

is_mapped : (map_routed 1 1 route turned).0 ≡ ok (mapped 1)
unfolding code
is_mapped = refl

-- Block 1 is not resident, so that its bytes stand in L2.
first_flag : get_elem? (flags turned) 1 ≡ some false
unfolding code
first_flag = refl

turned-IsHomed : IsHomed 1 l2 turned
unfolding code
turned-IsHomed = record {
  resident_tier = λ e. absurd (cc (e, first_flag));
  blank_behind = λ e. absurd (cc (e, first_flag));
  no_l1 = λ e. refl;
}

-- Block 2 becomes a copy of block 1.
clone_block_data_for_cow-Clones_example :
    Clones 1 2 turned
      (clone_block_data_for_cow (pos 1) l2 (pos 2) turned).0
      (clone_block_data_for_cow (pos 1) l2 (pos 2) turned).1
clone_block_data_for_cow-Clones_example =
    clone_block_data_for_cow-Clones 1 2 l2 turned turned-Apart turned-IsHomed

clone_succeeds : (clone_block_data_for_cow (pos 1) l2 (pos 2) turned).0 ≡ ok tt
unfolding code clone_block_data_for_cow
clone_succeeds = refl
