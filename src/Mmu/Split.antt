-- ===== src/Mmu/Split.antt =====
-- memory_management_unit.cpp: the fields of a virtual address and of a physical one.
use Prim.Native.Nat.{bit_and, bit_or}
use modern_cpp_ds.Common.{ℕ, ◌+◌, ◌*◌, ◌/◌, ◌%◌, ◌^◌, ◌<◌, ◌≡◌, ap, ◌∙◌, arith}
use modern_cpp_ds.Common.Bits.{bit_and-shr, bit_and-ones, bit_or-fields}
use modern_cpp_ds.Mmu.{
  offset_mask, page_dir_mask, page_table_mask, vpn_mask, u32, physical_address, page_directory_no,
  pte_index, main_argument,
}

offset_lem : (v : ℕ) → bit_and v offset_mask ≡ v % 2 ^ 12
offset_lem v = bit_and-ones 12 v

pub page_directory_no_lem : (v : ℕ) → page_directory_no v ≡ v / 2 ^ 19 % 2 ^ 5
unfolding page_directory_no
page_directory_no_lem v = bit_and-shr 19 v page_dir_mask ∙ bit_and-ones 5 (v / 2 ^ 19)

pub pte_index_lem : (v : ℕ) → pte_index v ≡ v / 2 ^ 12 % 2 ^ 7
unfolding pte_index
pte_index_lem v = bit_and-shr 12 v page_table_mask ∙ bit_and-ones 7 (v / 2 ^ 12)

main_argument_lem : (v : ℕ) → main_argument v ≡ v / 2 ^ 12 % 2 ^ 12
unfolding main_argument
main_argument_lem v = bit_and-shr 12 v vpn_mask ∙ bit_and-ones 12 (v / 2 ^ 12)

-- The three fields of a 24-bit virtual address are in range and make it up again.
pub fields_lem :
    (v : ℕ)
    → v < 2 ^ 24
    → (page_directory_no v < 2 ^ 5)
      × (pte_index v < 2 ^ 7)
      × (v ≡ page_directory_no v * 2 ^ 19 + pte_index v * 2 ^ 12 + bit_and v offset_mask)
fields_lem v h = omega (arith, page_directory_no_lem v, pte_index_lem v, offset_lem v)

-- A physical address holds the frame number, cut to 20 bits, above the offset of the virtual one.
pub physical_address_lem :
    (frame v : ℕ)
    → (physical_address frame v / 2 ^ 12 ≡ frame % 2 ^ 20)
      × (physical_address frame v % 2 ^ 12 ≡ v % 2 ^ 12)
unfolding physical_address
physical_address_lem frame v = omega (arith, joined)
  where
    shifted : u32 (frame * 2 ^ 12) ≡ frame % 2 ^ 20 * 2 ^ 12
    shifted = omega arith

    joined :
        bit_or (u32 (frame * 2 ^ 12)) (bit_and v offset_mask) ≡ frame % 2 ^ 20 * 2 ^ 12 + v % 2 ^ 12
    joined =
        ap (λ (o : ℕ). bit_or (u32 (frame * 2 ^ 12)) o) (offset_lem v)
        ∙ ap (λ (a : ℕ). bit_or a (v % 2 ^ 12)) shifted
        ∙ bit_or-fields 12 (frame % 2 ^ 20) (v % 2 ^ 12) (omega arith)

-- `main` passes the page number where the whole address is expected: every virtual address is
-- looked up in directory entry 0 and page table entry 0.
pub main_argument_fields :
    (v : ℕ) → (page_directory_no (main_argument v) ≡ 0) × (pte_index (main_argument v) ≡ 0)
main_argument_fields v = omega (
  arith,
  main_argument_lem v,
  page_directory_no_lem (main_argument v),
  pte_index_lem (main_argument v),
)
