-- ===== src/Mmu/Translate.antt =====
-- memory_management_unit.cpp: when `Address_Lookup` returns, and what.
use modern_cpp_ds.Common.{
  ℕ, zero, suc, ◌/◌, ◌%◌, ◌^◌, ◌≡◌, refl, ◌↔◌, true, false, Option, none, some, arith, ◌⊎◌, inl,
  inr, ◌==◌, if◌then◌else◌, Bool,
}
use modern_cpp_ds.Mmu.{
  PageTableEntry, Machine, Tlb, address, no_return, out_of_fuel, segmentation_fault, sigsev,
  protection_fault, tlb_protection_fault, can_access, physical_address, pde_addr, pte_addr,
  address_lookup, Outcome, table_walk, tlb_lookup, permission_check,
}
use modern_cpp_ds.Mmu.Split.{physical_address_lem}

-- What the walk makes of a table entry: an accepted one leads to a retry that does not end.
abbrev pub decided : PageTableEntry → Outcome
decided entry =
    if entry.is_valid
    then if can_access entry.protection_bits then out_of_fuel else no_return protection_fault
    else no_return sigsev

table_walk_lem :
    (entry : PageTableEntry) (r : Outcome)
    → (r ≡ out_of_fuel) ⊎ (r ≡ decided entry)
    → table_walk entry r r ≡ decided entry
unfolding table_walk
table_walk_lem entry r h = ground arith

miss_step :
    (fuel : ℕ) (m : Machine) (tlb : Tlb) (v : ℕ)
    → tlb v ≡ none
    → let directory = m.directory_entry_at (pde_addr m v) in
      let entry = m.table_entry_at (pte_addr m directory v) in
      let retry = address_lookup fuel m tlb v in
      address_lookup (suc fuel) m tlb v
      ≡ (if directory.is_valid then table_walk entry retry retry else no_return segmentation_fault)
unfolding address_lookup
miss_step fuel m tlb v h = rw (h, address_lookup, tlb_lookup)

no_fuel : (m : Machine) (tlb : Tlb) (v : ℕ) → address_lookup zero m tlb v ≡ out_of_fuel
unfolding address_lookup
no_fuel m tlb v = refl

-- A retry that came out as the walk decides, or ran out of fuel, changes nothing.
walk_decides :
    (valid : Bool) (entry : PageTableEntry) (retry : Outcome)
    → (retry ≡ out_of_fuel)
      ⊎ (retry ≡ (if valid then decided entry else no_return segmentation_fault))
    → (if valid then table_walk entry retry retry else no_return segmentation_fault)
      ≡ (if valid then decided entry else no_return segmentation_fault)
walk_decides true entry retry h = table_walk_lem entry retry h
walk_decides false entry retry h = refl

-- On a miss the walk is made and decides everything: an invalid directory entry, an invalid table
-- entry and a forbidden access each run off the end of the function, and in all other cases
-- (present or not) the recursion does not end, however much fuel it is given.
pub miss_lem :
    (fuel : ℕ) (m : Machine) (tlb : Tlb) (v : ℕ)
    → tlb v ≡ none
    → let directory = m.directory_entry_at (pde_addr m v) in
      address_lookup (suc fuel) m tlb v ≡ (
        if directory.is_valid
        then decided (m.table_entry_at (pte_addr m directory v))
        else no_return segmentation_fault)
miss_lem zero m tlb v h =
    rw (miss_step zero m tlb v h)
      (walk_decides _ _ (address_lookup zero m tlb v) (inl (no_fuel m tlb v)))
miss_lem (suc fuel) m tlb v h =
    rw (miss_step (suc fuel) m tlb v h)
      (walk_decides _ _ (address_lookup (suc fuel) m tlb v) (inr (miss_lem fuel m tlb v h)))

-- A hit is answered at once, by the permission bits.
hit_lem :
    (fuel : ℕ) (m : Machine) (tlb : Tlb) (v frame bits : ℕ)
    → tlb v ≡ some (frame, bits)
    → address_lookup (suc fuel) m tlb v ≡ (
        if bits % 2 == 0
        then no_return tlb_protection_fault
        else address (physical_address frame v))
unfolding address_lookup
hit_lem fuel m tlb v frame bits h =
    rw (h, address_lookup, tlb_lookup, permission_check) (ground arith)

-- What the TLB must hold for `v` for an address to be returned.
pub record Permits (tlb : Tlb) (v frame : ℕ) : Type 0 where
  pub bits : ℕ
  pub cached : tlb v ≡ some (frame, bits)
  pub odd : bits % 2 ≡ 1

address_of_Permits :
    (fuel : ℕ) (m : Machine) (tlb : Tlb) (v frame : ℕ)
    → Permits tlb v frame
    → address_lookup (suc fuel) m tlb v ≡ address (physical_address frame v)
address_of_Permits fuel m tlb v frame p = ground (arith, hit_lem fuel m tlb v frame p.bits p.cached)

Permits-of_address :
    (fuel : ℕ) (m : Machine) (tlb : Tlb) (v a : ℕ) (found : Option (ℕ × ℕ))
    → tlb v ≡ found
    → address_lookup (suc fuel) m tlb v ≡ address a
    → (frame : ℕ) × Permits tlb v frame × (a ≡ physical_address frame v)
Permits-of_address fuel m tlb v a none h e = absurd (ground (arith, miss_lem fuel m tlb v h))
Permits-of_address fuel m tlb v a (some (frame, bits)) h e = (
  frame,
  record { bits = bits; cached = h; odd = ground (arith, hit_lem fuel m tlb v frame bits h) },
  ground (arith, hit_lem fuel m tlb v frame bits h),
)

-- `Address_Lookup` returns an address exactly when the TLB already maps the whole virtual address
-- with an odd permission byte; it is then the frame joined with the offset. No page table walk ever
-- leads to a result.
pub address_iff :
    (fuel : ℕ) (m : Machine) (tlb : Tlb) (v a : ℕ)
    → (address_lookup (suc fuel) m tlb v ≡ address a)
      ↔ ((frame : ℕ) × Permits tlb v frame × (a ≡ physical_address frame v))
address_iff fuel m tlb v a = (
  Permits-of_address fuel m tlb v a (tlb v) refl,
  λ p. rw p.2 (address_of_Permits fuel m tlb v p.0 p.1),
)

-- A permitted hit returns the address with the cached frame above the unchanged page offset.
pub hit_translates :
    (fuel : ℕ) (m : Machine) (tlb : Tlb) (v frame : ℕ)
    → Permits tlb v frame
    → (a : ℕ) × (address_lookup (suc fuel) m tlb v ≡ address a)
      × (a / 2 ^ 12 ≡ frame % 2 ^ 20)
      × (a % 2 ^ 12 ≡ v % 2 ^ 12)
hit_translates fuel m tlb v frame p =
    let split = physical_address_lem frame v in
    (physical_address frame v, address_of_Permits fuel m tlb v frame p, split.0, split.1)

-- `Can_access` and `permission_check` read the lowest bit in opposite ways: protection bits that
-- let the table walk pass, once they stand in the TLB, make the lookup of the same address fail.
pub installed_entry_denied :
    (fuel : ℕ) (m : Machine) (tlb : Tlb) (v frame bits : ℕ)
    → can_access bits ≡ true
    → tlb v ≡ some (frame, bits)
    → address_lookup (suc fuel) m tlb v ≡ no_return tlb_protection_fault
unfolding can_access
installed_entry_denied fuel m tlb v frame bits c h =
    ground (arith, hit_lem fuel m tlb v frame bits h)
