-- ===== src/Data/Housed.antt =====
-- Where the pages of a block may be: a resident block has tier L1, and if it has no L1 page its L2
-- page is blank; a block that is not resident has no L1 page.
pub mod Writes
pub mod Paging
pub mod Moves
pub mod Reclaim
pub mod Fresh
pub mod Promotion
pub mod Ensuring
pub mod Vacant
pub mod Mapping
pub mod Calls
pub mod Replacing
pub mod History
use mmu.Prelude.{
  ℕ, ◌<◌, ℤ, pos, negsuc, ◌≡◌, refl, sym, ap, ◌∙◌, subst, arith, Bool, true, false, Option, none,
  some, get_elem?, inc64, ◌==◌, Bool-cases, Option-cases, inl, inr, if◌then◌else◌,
}
use mmu.Types.{Tier, l1, Result, ok, err, ptr, PagePtr, Error}
use mmu.Exec.{or_same, ◌>>=◌}
use mmu.Exec.Keeps.{Keeps, Order, keeps_rules}
use mmu.Exec.Returns.{came, with_value, with_error}
use mmu.BlockDirectory
use mmu.BlockDirectory.{BlockDirectory, BlockMeta}
use mmu.BlockDirectory.Writes.{written, mutable_get-at}
use mmu.Config.{Config}
use mmu.ChunkPool.{owner, zero_page, Page}
use mmu.Runtime.{Runtime, Pool, pool_of, directory, write_meta, touch_block}
use mmu.Paging.{acquire_page, sync_l1_to_l2}
use mmu.Paging.Pages.{content, Same}
use mmu.Frame.{sync_l1_to_l2-Frames}
use mmu.Residency.{is_resident}
use mmu.Data.{Apart, by_pool}
use mmu.Data.Acquiring.{Acquires, acquire_page-Acquires}
use mmu.Data.Sharing.{directory-StaysApart}
use mmu.Data.Copies.{sync_l1_to_l2-Syncs}

abbrev pub entry : Runtime → ℕ → Option BlockMeta
entry rt j = get_elem? rt.block_directory.metas j

abbrev pub tier_of : Option BlockMeta → Tier
tier_of none = l1
tier_of (some m) = m.tier

-- One block: its entry in the directory, its L1 page, and its bytes in L2.
pub record House (size : ℕ) (e : Option BlockMeta) (o : Option PagePtr) (c : Page) : Type 0 where
  pub at_l1 : is_resident e ≡ true → tier_of e ≡ l1
  pub blank : is_resident e ≡ true → o ≡ none → Same size c zero_page
  pub no_page : is_resident e ≡ false → o ≡ none

abbrev pub HouseOf : Runtime → ℕ → Type 0
HouseOf rt j =
    House rt.config.block_size_bytes (entry rt j) (owner rt.l1_pool j) (content rt.l2_pool j)

-- Every block, in pools that use no page twice.
pub record IsHoused (rt : Runtime) : Type 0 where
  pub apart : Apart rt
  pub houses : (j : ℕ) → HouseOf rt j

abbrev pub StaysHoused : Runtime → Runtime → Type 0
StaysHoused a b = IsHoused a → IsHoused b

pub StaysHoused-order : Order StaysHoused
StaysHoused-order = record { rel_refl = λ a h. h; rel_trans = λ a b c f g h. g (f h) }

-- What decides whether a block is housed is the same.
pub record Alike (j : ℕ) (a b : Runtime) : Type 0 where
  pub same_resident : is_resident (entry b j) ≡ is_resident (entry a j)
  pub same_tier : tier_of (entry b j) ≡ tier_of (entry a j)
  pub same_l1 : owner b.l1_pool j ≡ owner a.l1_pool j
  pub same_l2 : Same a.config.block_size_bytes (content b.l2_pool j) (content a.l2_pool j)

pub Alike-House :
    (j : ℕ) (a b : Runtime)
    → b.config.block_size_bytes ≡ a.config.block_size_bytes
    → Alike j a b
    → HouseOf a j
    → HouseOf b j
Alike-House j a b size s h = record {
  at_l1 = λ r. s.same_tier ∙ h.at_l1 (sym s.same_resident ∙ r);
  blank = λ r o k lt.
      let lt' : k < a.config.block_size_bytes = omega (arith, lt, size) in
      s.same_l2 k lt' ∙ h.blank (sym s.same_resident ∙ r) (sym s.same_l1 ∙ o) k lt';
  no_page = λ r. s.same_l1 ∙ h.no_page (sym s.same_resident ∙ r);
}

-- A block that is not resident and has no L1 page.
pub out-House :
    (size : ℕ) (e : Option BlockMeta) (o : Option PagePtr) (c : Page)
    → is_resident e ≡ false
    → o ≡ none
    → House size e o c
out-House size e o c out free = record {
  at_l1 = λ r. absurd (cc (r, out));
  blank = λ r. absurd (cc (r, out));
  no_page = λ r. free;
}

-- A change of what is neither a page nor an entry of the directory.
pub fields-StaysHoused :
    (rt rt' : Runtime)
    → rt'.config ≡ rt.config
    → ((p : Pool) → pool_of rt' p ≡ pool_of rt p)
    → rt'.block_directory ≡ rt.block_directory
    → StaysHoused rt rt'
fields-StaysHoused rt rt' c p d g = record {
  apart = λ x. rw (p x) (g.apart x);
  houses = λ j.
      Alike-House j rt rt' (ap (λ x. x.block_size_bytes) c)
        (record {
          same_resident = ap (λ x. is_resident (get_elem? x.metas j)) d;
          same_tier = ap (λ x. tier_of (get_elem? x.metas j)) d;
          same_l1 = ap (λ x. owner x j) (p Pool.l1_pool);
          same_l2 = λ k lt. ap (λ x. content x j k) (p Pool.l2_pool);
        })
        (g.houses j);
}

-- All blocks but one are as before.
pub all_but-IsHoused :
    (i : ℕ) (a b : Runtime)
    → Apart b
    → b.config.block_size_bytes ≡ a.config.block_size_bytes
    → ((j : ℕ) → (i == j) ≡ false → Alike j a b)
    → HouseOf b i
    → StaysHoused a b
all_but-IsHoused i a b apart size others here g = record {
  apart = apart;
  houses = λ j. elim (Bool-cases (i == j)) [
    | inr ne ↦ Alike-House j a b size (others j ne) (g.houses j)
    | inl e ↦ let same : i ≡ j = ground (arith, e) in rw (← same) here
  ];
}
