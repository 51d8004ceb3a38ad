-- ===== src/Mmu/Tests.antt =====
-- memory_management_unit.cpp: the theorems at a concrete machine.
use modern_cpp_ds.Common.{ℕ, ◌≡◌, ◌↔◌, refl, true, none, some, if◌then◌else◌}
use modern_cpp_ds.Mmu.{
  Machine, Tlb, physical_address, address_lookup, address, no_return, segmentation_fault, pde_addr,
  pte_addr,
}
use modern_cpp_ds.Mmu.Translate.{Permits, decided, miss_lem, address_iff}

-- An address with directory entry 3, table entry 5 and offset 7.
abbrev an_address : ℕ
an_address = 1593351

-- All entries are valid and present, and their protection bits are 2.
abbrev machine : Machine
machine = record {
  directory_entry_at = λ a. record { is_valid = true; page_frame_next_page_table = 4 };
  table_entry_at = λ a. record {
    is_valid = true;
    protection_bits = 2;
    physical_page_frame_number = 9;
    present_bit = 1;
  };
  sizeof_directory_entry = 8;
  sizeof_table_entry = 12;
  cr3 = 4096;
}

abbrev no_entries : Tlb
no_entries v = none

miss_example :
    let directory = machine.directory_entry_at (pde_addr machine an_address) in
    address_lookup 3 machine no_entries an_address ≡ (
      if directory.is_valid
      then decided (machine.table_entry_at (pte_addr machine directory an_address))
      else no_return segmentation_fault)
miss_example = miss_lem 2 machine no_entries an_address refl

abbrev permitting : Tlb
permitting v = some (9, 1)

abbrev forbidding : Tlb
forbidding v = some (9, 2)

address_iff_example : (address_lookup 1 machine permitting an_address ≡ address 36871) ↔ (
    (frame : ℕ) × Permits permitting an_address frame × (36871 ≡ physical_address frame an_address))
address_iff_example = address_iff 0 machine permitting an_address 36871
