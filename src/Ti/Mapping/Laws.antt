-- ===== src/Ti/Mapping/Laws.antt =====
-- The pages that the ports can map, and what the ports read back.
use z80e.Common.{
  ℕ, ◌/◌, ◌≤◌, ◌<◌, ◌≡◌, arith, false, not, ◌==◌, if◌then◌else◌, switch, bit_and, bit_and-le_right,
  bit_and-two-pow, bit, none, same_bits, bit_or-lt, bit-bit_or, bit-bit_and, Bool-cases, inl, inr,
  ◌|||◌,
}
use z80e.Ti.Memory.{Bank, Mmu, mapped, bank_of}
use z80e.Ti.Memory.Flash.{ti_read_byte}
use z80e.Ti.Mapping.{
  Mapping, is_ti83p, check_page, mapped_3, reload_mapping, read_bank_a_paging_port,
  write_bank_a_paging_port, write_ram_paging_port,
}

marked_ti83p :
    (v : ℕ)
    → (if not (bit_and v 0x40 == 0) then bit_and v 0x1f ||| 0x40 else bit_and v 0x1f)
      ≡ bit_and v 0x5f
marked_ti83p v =
    let small =
      bit_or-lt 8 (bit_and v 0x1f) 0x40 (omega (arith, bit_and-le_right v 0x1f)) (omega arith) in
    elim (Bool-cases (bit 6 v)) [
      | inl on ↦
          let joined : bit_and v 0x1f ||| 0x40 ≡ bit_and v 0x5f =
            same_bits _ _ small (omega (arith, bit_and-le_right v 0x5f))
              (simp (bit-bit_or, bit-bit_and) (ground arith))
              (simp (bit-bit_or, bit-bit_and) (ground arith))
              (simp (bit-bit_or, bit-bit_and) (ground arith))
              (simp (bit-bit_or, bit-bit_and) (ground arith))
              (simp (bit-bit_or, bit-bit_and) (ground arith))
              (simp (bit-bit_or, bit-bit_and) (ground arith))
              (simp (bit-bit_or, bit-bit_and) (ground arith))
              (simp (bit-bit_or, bit-bit_and) (ground arith)) in
          ground (arith, bit_and-two-pow 6 v, joined)
      | inr off ↦
          let joined : bit_and v 0x1f ≡ bit_and v 0x5f =
            same_bits _ _ (omega (arith, bit_and-le_right v 0x1f))
              (omega (arith, bit_and-le_right v 0x5f))
              (simp (bit-bit_or, bit-bit_and) (ground arith))
              (simp (bit-bit_or, bit-bit_and) (ground arith))
              (simp (bit-bit_or, bit-bit_and) (ground arith))
              (simp (bit-bit_or, bit-bit_and) (ground arith))
              (simp (bit-bit_or, bit-bit_and) (ground arith))
              (simp (bit-bit_or, bit-bit_and) (ground arith))
              (simp (bit-bit_or, bit-bit_and) (ground arith))
              (simp (bit-bit_or, bit-bit_and) (ground arith)) in
          ground (arith, bit_and-two-pow 6 v, joined)
    ]

marked_other :
    (v : ℕ)
    → (if not (bit_and v 0x80 == 0) then bit_and v 0x7f ||| 0x80 else bit_and v 0x7f)
      ≡ bit_and v 0xff
marked_other v =
    let small =
      bit_or-lt 8 (bit_and v 0x7f) 0x80 (omega (arith, bit_and-le_right v 0x7f)) (omega arith) in
    elim (Bool-cases (bit 7 v)) [
      | inl on ↦
          let joined : bit_and v 0x7f ||| 0x80 ≡ bit_and v 0xff =
            same_bits _ _ small (omega (arith, bit_and-le_right v 0xff))
              (simp (bit-bit_or, bit-bit_and) (ground arith))
              (simp (bit-bit_or, bit-bit_and) (ground arith))
              (simp (bit-bit_or, bit-bit_and) (ground arith))
              (simp (bit-bit_or, bit-bit_and) (ground arith))
              (simp (bit-bit_or, bit-bit_and) (ground arith))
              (simp (bit-bit_or, bit-bit_and) (ground arith))
              (simp (bit-bit_or, bit-bit_and) (ground arith))
              (simp (bit-bit_or, bit-bit_and) (ground arith)) in
          ground (arith, bit_and-two-pow 7 v, joined)
      | inr off ↦
          let joined : bit_and v 0x7f ≡ bit_and v 0xff =
            same_bits _ _ (omega (arith, bit_and-le_right v 0x7f))
              (omega (arith, bit_and-le_right v 0xff))
              (simp (bit-bit_or, bit-bit_and) (ground arith))
              (simp (bit-bit_or, bit-bit_and) (ground arith))
              (simp (bit-bit_or, bit-bit_and) (ground arith))
              (simp (bit-bit_or, bit-bit_and) (ground arith))
              (simp (bit-bit_or, bit-bit_and) (ground arith))
              (simp (bit-bit_or, bit-bit_and) (ground arith))
              (simp (bit-bit_or, bit-bit_and) (ground arith))
              (simp (bit-bit_or, bit-bit_and) (ground arith)) in
          ground (arith, bit_and-two-pow 7 v, joined)
    ]

module _ {H : Type 0} where
  -- The page number of a bank is at most the number of pages: one more than the last page.
  unfoldable pub PageAtMost : Mmu H → Bank → Type 0
  PageAtMost mmu bank = bank.page ≤ (if bank.flash then mmu.flash_pages else mmu.ram_pages)

  check_page-PageAtMost : (mmu : Mmu H) (bank : Bank) → PageAtMost mmu (check_page mmu bank)
  unfolding check_page PageAtMost
  check_page-PageAtMost mmu bank =
      ground (
        arith,
        bit_and-le_right bank.page mmu.flash_pages,
        bit_and-le_right bank.page mmu.ram_pages,
      )

  -- After `reload_mapping` no bank has a page number above the number of pages of its chip.
  pub reload_mapping-PageAtMost :
      (state : Mapping H)
      → PageAtMost state.mmu (reload_mapping state).mmu.bank_0
        × PageAtMost state.mmu (reload_mapping state).mmu.bank_1
        × PageAtMost state.mmu (reload_mapping state).mmu.bank_2
        × PageAtMost state.mmu (reload_mapping state).mmu.bank_3
  unfolding reload_mapping
  reload_mapping-PageAtMost state = (
    check_page-PageAtMost state.mmu _,
    check_page-PageAtMost state.mmu _,
    check_page-PageAtMost state.mmu _,
    check_page-PageAtMost state.mmu _,
  )

  -- On a calculator other than the TI-83+ and in mapping mode 0: after a write to port 5 of the
  -- number that is the number of RAM pages, one more than the last page, every read in the last
  -- bank is outside the array of the RAM.
  pub ti_read_byte-write_ram_paging_port :
      (read_hook write_hook : H → ℕ → ℕ → ℕ × H) (state : Mapping H) (value address : ℕ)
      → is_ti83p state.device ≡ false
      → state.map_mode ≡ false
      → bit_and value 7 ≡ state.mmu.ram_pages
      → 0xc000 ≤ address
      → address < 0x10000
      → ti_read_byte read_hook write_hook (write_ram_paging_port state value).mmu address ≡ none
  unfolding ti_read_byte write_ram_paging_port reload_mapping check_page mapped_3 mapped bank_of
      switch
  ti_read_byte-write_ram_paging_port read_hook write_hook state value address other mode e low
        high =
      let last : address / 0x4000 ≡ 3 = omega arith in rw (last, mode, other, e) (ground arith)

  -- A byte written to port 6 is read back: on the TI-83+ with bits 0 to 4 and 6 kept and the others
  -- clear, on the other calculators as its low eight bits.
  pub read_bank_a_paging_port-write_bank_a_paging_port :
      (state : Mapping H) (value : ℕ)
      → read_bank_a_paging_port (write_bank_a_paging_port state value)
        ≡ bit_and value (if is_ti83p state.device then 0x5f else 0xff)
  unfolding read_bank_a_paging_port write_bank_a_paging_port reload_mapping
  read_bank_a_paging_port-write_bank_a_paging_port state value =
      elim (Bool-cases (is_ti83p state.device)) [
        | inl is ↦ rw is (marked_ti83p value)
        | inr other ↦ rw other (marked_other value)
      ]
