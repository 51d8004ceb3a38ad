-- ===== src/Mmu.antt =====
-- memory_management_unit.cpp: the translation of a 24-bit virtual address by TLB and page tables.
-- A `uint32_t` is a number below 2 ^ 32 with its wrap-around written out.
mod Split
mod Translate
mod Tests
use Prim.Native.Nat.{bit_and, bit_or}
use modern_cpp_ds.Common.{
  ℕ, zero, suc, ◌+◌, ◌*◌, ◌/◌, ◌%◌, ◌^◌, Bool, true, false, Option, none, some, ◌==◌, if◌then◌else◌,
}

abbrev pub page_directory_shift : ℕ
page_directory_shift = 19

abbrev pub offset_shift : ℕ
offset_shift = 12

abbrev pub offset_mask : ℕ
offset_mask = 0b111111111111

abbrev pub vpn_mask : ℕ
vpn_mask = 0b111111111111000000000000

abbrev pub page_dir_mask : ℕ
page_dir_mask = 0b111110000000000000000000

abbrev pub page_table_mask : ℕ
page_table_mask = 0b000001111111000000000000

abbrev pub u32 : ℕ → ℕ
u32 n = n % 2 ^ 32

pub record PageDirectoryEntry : Type 0 where
  pub is_valid : Bool
  pub page_frame_next_page_table : ℕ

pub record PageTableEntry : Type 0 where
  pub is_valid : Bool
  pub protection_bits : ℕ
  pub physical_page_frame_number : ℕ
  pub present_bit : ℕ

-- What `Access_Memory` reads at an address, the sizes of the two structs, which the compiler
-- chooses, and the register CR3.
pub record Machine : Type 0 where
  pub directory_entry_at : ℕ → PageDirectoryEntry
  pub table_entry_at : ℕ → PageTableEntry
  pub sizeof_directory_entry : ℕ
  pub sizeof_table_entry : ℕ
  pub cr3 : ℕ

-- `std::map<uint32_t, std::pair<uint32_t, uint8_t>> TLB`: page frame number and permission bits.
abbrev pub Tlb : Type 0
Tlb = ℕ → Option (ℕ × ℕ)

-- The exception objects that the code makes. None is thrown.
pub data Discarded : Type 0 where
  tlb_protection_fault segmentation_fault sigsev protection_fault page_fault : Discarded

-- `no_return`: control flows off the end of `Address_Lookup`, whose result is then undefined.
pub data Outcome : Type 0 where
  address : ℕ → Outcome
  no_return : Discarded → Outcome
  out_of_fuel : Outcome

-- `TLB_Lookup`; the option stands for the flag and the reference parameter.
unfoldable pub tlb_lookup : Tlb → ℕ → Option ℕ
tlb_lookup tlb virtual_address = elim (tlb virtual_address) [
  | some (frame, _) ↦ some frame
  | none ↦ none
]

-- `permission_check`. `TLB[…]` makes a zero entry for a missing key; the caller has found the key.
unfoldable pub permission_check : Tlb → ℕ → Bool
permission_check tlb virtual_address = elim (tlb virtual_address) [
  | some (_, bits) ↦ if bits % 2 == 0 then false else true
  | none ↦ false
]

unfoldable pub can_access : ℕ → Bool
can_access protection_bits = protection_bits % 2 == 0

-- `TLB_Insert` has no statement in its body.
unfoldable pub tlb_insert : Tlb → ℕ → ℕ → ℕ → Tlb
tlb_insert tlb virtual_page_no page_frame_number protection_bits = tlb

-- `page_fault_handler` has no statement in its body either.
unfoldable pub page_fault_handler : Machine → Machine
page_fault_handler m = m

-- `(tlb_entry << OFFSET_SHIFT) | offset`
unfoldable pub physical_address : ℕ → ℕ → ℕ
physical_address tlb_entry v = bit_or (u32 (tlb_entry * 2 ^ offset_shift)) (bit_and v offset_mask)

unfoldable pub page_directory_no : ℕ → ℕ
page_directory_no v = bit_and v page_dir_mask / 2 ^ page_directory_shift

unfoldable pub pte_index : ℕ → ℕ
pte_index v = bit_and v page_table_mask / 2 ^ offset_shift

unfoldable pub pde_addr : Machine → ℕ → ℕ
unfolding page_directory_no
pde_addr m v = u32 (m.cr3 + page_directory_no v * m.sizeof_directory_entry)

unfoldable pub pte_addr : Machine → PageDirectoryEntry → ℕ → ℕ
unfolding pte_index
pte_addr m entry v =
    u32 (
      u32 (entry.page_frame_next_page_table * 2 ^ offset_shift)
      + m.sizeof_table_entry * pte_index v)

-- After a retry whose result is `ans`: `return ans;` stands behind one of the two retries only.
abbrev pub without_return : Outcome → Outcome
without_return (address a) = no_return page_fault
without_return r = r

-- The walk of the page table after the directory entry was found valid. The retries are the
-- recursive calls after the page fault handler and after `TLB_Insert`.
unfoldable pub table_walk : PageTableEntry → (after_fault after_insert : Outcome) → Outcome
unfolding can_access
table_walk entry after_fault after_insert =
    if entry.is_valid
    then if can_access entry.protection_bits
      then if entry.present_bit == 0 then without_return after_fault else after_insert
      else no_return protection_fault
    else no_return sigsev

-- `Address_Lookup`. The fuel bounds the depth of the recursion.
unfoldable pub address_lookup : ℕ → Machine → Tlb → ℕ → Outcome
unfolding tlb_lookup permission_check tlb_insert page_fault_handler
address_lookup zero m tlb v = out_of_fuel
address_lookup (suc fuel) m tlb v =
    let directory = m.directory_entry_at (pde_addr m v) in
    let entry = m.table_entry_at (pte_addr m directory v) in
    let after_fault = address_lookup fuel (page_fault_handler m) tlb v in
    let after_insert =
      address_lookup fuel m
        (tlb_insert tlb v entry.physical_page_frame_number entry.protection_bits) v in
    let on_miss =
      if directory.is_valid
      then table_walk entry after_fault after_insert
      else no_return segmentation_fault in
    let on_hit = λ (tlb_entry : ℕ).
      if permission_check tlb v
      then address (physical_address tlb_entry v)
      else no_return tlb_protection_fault in
    elim (tlb_lookup tlb v) [ some tlb_entry ↦ on_hit tlb_entry | none ↦ on_miss ]

-- The page number that `main` passes to `Address_Lookup`.
unfoldable pub main_argument : ℕ → ℕ
main_argument virtual_address = bit_and virtual_address vpn_mask / 2 ^ offset_shift
