-- ===== src/Data/Housed/Writes.antt =====
-- Writes to the directory: what each leaves at a block, and those that keep every block housed.
use mmu.Prelude.{
  ℕ, ℤ, pos, negsuc, ◌≡◌, refl, ap, ◌∙◌, arith, Bool, false, Option, none, some, inc64, ◌==◌,
  Bool-cases, inl, inr,
}
use mmu.Types.{l1}
use mmu.BlockDirectory
use mmu.BlockDirectory.{BlockDirectory, BlockMeta}
use mmu.BlockDirectory.Writes.{written, mutable_get-at}
use mmu.Runtime.{Runtime, directory, write_meta, touch_block}
use mmu.Residency.{is_resident}
use mmu.Data.{by_pool}
use mmu.Data.Sharing.{directory-StaysApart}
use mmu.Data.Housed.{entry, tier_of, StaysHoused, Alike-House, fields-StaysHoused}

pub written-out :
    (f : BlockMeta → BlockMeta) (e : Option BlockMeta)
    → ((m : BlockMeta) → (f m).resident_in_l1 ≡ false)
    → is_resident (written f e) ≡ false
written-out f none h = refl
written-out f (some m) h = h m

pub written-l1 :
    (f : BlockMeta → BlockMeta) (e : Option BlockMeta)
    → ((m : BlockMeta) → (f m).tier ≡ l1)
    → tier_of (written f e) ≡ l1
written-l1 f none h = refl
written-l1 f (some m) h = h m

-- A write that leaves residency and tier alone.
pub record Harmless (f : BlockMeta → BlockMeta) : Type 0 where
  pub keeps_resident : (m : BlockMeta) → (f m).resident_in_l1 ≡ m.resident_in_l1
  pub keeps_tier : (m : BlockMeta) → (f m).tier ≡ m.tier

pub written-resident :
    (f : BlockMeta → BlockMeta) (e : Option BlockMeta)
    → ((m : BlockMeta) → (f m).resident_in_l1 ≡ m.resident_in_l1)
    → is_resident (written f e) ≡ is_resident e
written-resident f none h = refl
written-resident f (some m) h = h m

written-tier :
    (f : BlockMeta → BlockMeta) (e : Option BlockMeta)
    → Harmless f
    → tier_of (written f e) ≡ tier_of e
written-tier f none h = refl
written-tier f (some m) h = h.keeps_tier m

module _ (i : ℕ) (f : BlockMeta → BlockMeta) (rt : Runtime) where
  pub write_meta-entry_self : entry (write_meta (pos i) f rt) i ≡ written f (entry rt i)
  write_meta-entry_self = ground (arith, mutable_get-at rt.block_directory i i f)

  pub write_meta-entry_ne :
      (j : ℕ) → (i == j) ≡ false → entry (write_meta (pos i) f rt) j ≡ entry rt j
  write_meta-entry_ne j ne = ground (arith, mutable_get-at rt.block_directory i j f)

  Harmless-entry :
      (j : ℕ)
      → Harmless f
      → (is_resident (entry (write_meta (pos i) f rt) j) ≡ is_resident (entry rt j))
        × (tier_of (entry (write_meta (pos i) f rt) j) ≡ tier_of (entry rt j))
  Harmless-entry j h = elim (Bool-cases (i == j)) [
    | inr ne ↦ (ap is_resident (write_meta-entry_ne j ne), ap tier_of (write_meta-entry_ne j ne))
    | inl e ↦
        let same : i ≡ j = ground (arith, e) in
        rw (← same) (
          ap is_resident write_meta-entry_self ∙ written-resident f (entry rt i) h.keeps_resident,
          ap tier_of write_meta-entry_self ∙ written-tier f (entry rt i) h,
        )
  ]

pub write_meta-StaysHoused :
    (id : ℤ) (f : BlockMeta → BlockMeta) (rt : Runtime)
    → Harmless f
    → StaysHoused rt (write_meta id f rt)
unfolding BlockDirectory.mutable_get
write_meta-StaysHoused (negsuc n) f rt h g = record {
  apart = directory-StaysApart (λ d. BlockDirectory.mutable_get d (negsuc n) f) rt g.apart;
  houses = g.houses;
}
write_meta-StaysHoused (pos i) f rt h g = record {
  apart = directory-StaysApart (λ d. BlockDirectory.mutable_get d (pos i) f) rt g.apart;
  houses = λ j.
      let (r, t) = Harmless-entry i f rt j h in
      Alike-House j rt (write_meta (pos i) f rt) refl
        (record { same_resident = r; same_tier = t; same_l1 = refl; same_l2 = λ k lt. refl })
        (g.houses j);
}

pub touch_block-StaysHoused : (id : ℤ) (rt : Runtime) → StaysHoused rt (touch_block id rt)
unfolding touch_block BlockDirectory.set_last_access_epoch
touch_block-StaysHoused id rt g =
    write_meta-StaysHoused id _ (record rt { epoch = inc64 rt.epoch })
      (record { keeps_resident = λ m. refl; keeps_tier = λ m. refl })
      (fields-StaysHoused rt (record rt { epoch = inc64 rt.epoch }) refl (by_pool _ refl refl) refl
        g)

pub touch_block-entry_tier :
    (i : ℕ) (rt : Runtime) (j : ℕ)
    → tier_of (entry (touch_block (pos i) rt) j) ≡ tier_of (entry rt j)
unfolding touch_block BlockDirectory.set_last_access_epoch
touch_block-entry_tier i rt j =
    (Harmless-entry i _ (record rt { epoch = inc64 rt.epoch }) j
      (record { keeps_resident = λ m. refl; keeps_tier = λ m. refl })).1

pub touch_block-entry_ne :
    (i : ℕ) (rt : Runtime) (j : ℕ)
    → (i == j) ≡ false
    → entry (touch_block (pos i) rt) j ≡ entry rt j
unfolding touch_block BlockDirectory.set_last_access_epoch
touch_block-entry_ne i rt j ne = write_meta-entry_ne i _ (record rt { epoch = inc64 rt.epoch }) j ne

pub backing-StaysHoused :
    (id : ℤ) (b : Bool) (rt : Runtime)
    → StaysHoused rt (directory (λ d. BlockDirectory.set_has_l2_backing d id b) rt)
unfolding BlockDirectory.set_has_l2_backing
backing-StaysHoused id b rt =
    write_meta-StaysHoused id _ rt (record { keeps_resident = λ m. refl; keeps_tier = λ m. refl })

pub slot-StaysHoused :
    (id slot : ℤ) (rt : Runtime)
    → StaysHoused rt (directory (λ d. BlockDirectory.set_l2_slot_id d id slot) rt)
unfolding BlockDirectory.set_l2_slot_id
slot-StaysHoused id slot rt =
    write_meta-StaysHoused id _ rt (record { keeps_resident = λ m. refl; keeps_tier = λ m. refl })

pub dirty-StaysHoused :
    (id : ℤ) (b : Bool) (rt : Runtime)
    → StaysHoused rt (directory (λ d. BlockDirectory.set_dirty d id b) rt)
unfolding BlockDirectory.set_dirty
dirty-StaysHoused id b rt =
    write_meta-StaysHoused id _ rt (record { keeps_resident = λ m. refl; keeps_tier = λ m. refl })
