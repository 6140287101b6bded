-- ===== src/Ti/Memory/Flash/Safe.antt =====
-- Which accesses stay inside the arrays, and what a write may change.
use z80e.Common.{
  ℕ, zero, suc, ◌+◌, ◌*◌, ◌/◌, ◌≤◌, ◌<◌, ◌≡◌, arith, Bool, true, List, [], ◌∷◌, bit_and-low, ◌++◌,
  switch, length,
}
use z80e.Ti.Memory.{FlashWrite, Mmu, sector_length, sector_start, chip_write, chip_erase_sector}
use z80e.Ti.Memory.Flash.{
  exactly, anything, matched, patterns, program_pattern, erase_sector_pattern, run_patterns, fits,
}

pub matched_le : (n : ℕ) (ws ps : List FlashWrite) → matched n ws ps ≤ n
unfolding matched
matched_le zero ws ps = omega arith
matched_le (suc n) [] ps = omega arith
matched_le (suc n) (w ∷ ws) [] = omega arith
matched_le (suc n) (w ∷ ws) (p ∷ ps) = ground (arith, matched_le n ws ps)

pub matched_le_length : (n : ℕ) (ws ps : List FlashWrite) → matched n ws ps ≤ length ps
unfolding matched
matched_le_length zero ws ps = omega arith
matched_le_length (suc n) [] ps = omega arith
matched_le_length (suc n) (w ∷ ws) [] = omega arith
matched_le_length (suc n) (w ∷ ws) (p ∷ ps) = ground (arith, matched_le_length n ws ps)

pub fits-anything : (w : FlashWrite) → fits w anything ≡ true
unfolding fits
fits-anything w = ground (arith, bit_and-low 0 w.address, bit_and-low 0 w.value)

-- A pattern whose last entry fits anything fits at least as far.
matched-anything :
    (n : ℕ) (ws ps : List FlashWrite) (q : FlashWrite)
    → matched n ws (ps ++ q ∷ []) ≤ matched n ws (ps ++ anything ∷ [])
unfolding matched
matched-anything zero ws ps q = omega arith
matched-anything (suc n) [] ps q = omega arith
matched-anything (suc zero) (w ∷ ws) [] q = ground (arith, fits-anything w)
matched-anything (suc (suc n)) (w ∷ []) [] q = ground (arith, fits-anything w)
matched-anything (suc (suc n)) (w ∷ _ ∷ ws) [] q = ground (arith, fits-anything w)
matched-anything (suc n) (w ∷ ws) (p ∷ ps) q = ground (arith, matched-anything n ws ps q)

module _ {H : Type 0} where
  -- The search never reaches the handler of the command for the whole chip: it has the result of
  -- the search in the table without that command, which ends with the command for a sector.
  pub run_patterns-without_chip_erase :
      (address value : ℕ) (partial : Bool) (mmu : Mmu H)
      → run_patterns patterns address value partial mmu
        ≡ run_patterns
            (record { pattern = program_pattern; handler = chip_write }
              ∷ record { pattern = erase_sector_pattern; handler = chip_erase_sector }
              ∷ [])
            address
            value
            partial
            mmu
  unfolding run_patterns
  run_patterns-without_chip_erase address value partial mmu =
      let n = mmu.flash_write_index in
      let ws = mmu.flash_writes in
      ground (
        arith,
        matched-anything n ws
            (exactly 0xaaa 0xaa
              ∷ exactly 0x555 0x55
              ∷ exactly 0xaaa 0x80
              ∷ exactly 0xaaa 0xaa
              ∷ exactly 0x555 0x55
              ∷ [])
            (exactly 0xaaa 0x10),
        matched_le_length n ws erase_sector_pattern,
        matched_le n ws erase_sector_pattern,
      )

  -- Six entries of writes, and an index that the next write finds inside the array.
  unfoldable pub WritesFit : Mmu H → Type 0
  WritesFit mmu = (length mmu.flash_writes ≡ 6) × (mmu.flash_write_index ≤ 5)

  -- The chip is made of blocks of 64 KiB.
  unfoldable pub FlashFits : Mmu H → Type 0
  FlashFits mmu = (mmu.flash_pages ≡ mmu.flash_pages / 4 * 4) × (mmu.flash_pages ≤ 0x100)

  -- The sector that is erased holds the address and lies inside the chip.
  pub sector-bounds :
      (mmu : Mmu H) (address : ℕ)
      → FlashFits mmu
      → address < mmu.flash_pages * 0x4000
      → (sector_start mmu address ≤ address)
        × (address < sector_start mmu address + sector_length mmu address)
        × (sector_start mmu address + sector_length mmu address ≤ mmu.flash_pages * 0x4000)
  unfolding sector_start sector_length switch FlashFits
  sector-bounds mmu address (whole, most) lt = ground arith
