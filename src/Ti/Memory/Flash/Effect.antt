-- ===== src/Ti/Memory/Flash/Effect.antt =====
-- What a write may change, and that no access of it is outside an array.
use z80e.Common.{
  ℕ, ◌+◌, ◌*◌, ◌≤◌, ◌<◌, ◌≡◌, ◌∙◌, inl, inr, arith, Bool, true, false, ◌||◌, List, Bool-cases, some,
  bit_and, ◌==◌, if◌then◌else◌, length, set, length-set,
}
use z80e.Ti.Memory.{
  FlashWrite, Mmu, store, memset, sector_length, sector_start, chip_reset, chip_write,
  chip_erase_sector,
}
use z80e.Ti.Memory.Flash.{
  matched, patterns, program_pattern, erase_sector_pattern, run_patterns, record_write,
  flash_command,
}
use z80e.Ti.Memory.Flash.Safe.{
  WritesFit, FlashFits, sector-bounds, matched_le_length, run_patterns-without_chip_erase,
}

module _ {H : Type 0} where
  -- What a write of `value` at offset `i` may do to the bytes of the chip.
  pub data FlashEffect (mmu : Mmu H) (i value : ℕ) : (ℕ → ℕ) → Type 0 where
    kept : FlashEffect mmu i value (mmu.flash)
    programmed : FlashEffect mmu i value (store mmu.flash i (bit_and (mmu.flash i) value))
    erased :
        FlashEffect mmu i value (memset mmu.flash (sector_start mmu i) 0xff (sector_length mmu i))

  pub run_patterns-effect :
      (mmu : Mmu H) (i value : ℕ)
      → FlashFits mmu
      → i < mmu.flash_pages * 0x4000
      → mmu.flash_write_index ≤ 6
      → (bytes : ℕ → ℕ) × (partial : Bool) × (run_patterns patterns i value false mmu
          ≡ some (record mmu { flash = bytes }, partial))
        × FlashEffect mmu i value bytes
        × ((partial ≡ true) → mmu.flash_write_index ≤ 5)
  unfolding run_patterns chip_write chip_erase_sector
  run_patterns-effect mmu i value whole lt six =
      let n = mmu.flash_write_index in
      let ws = mmu.flash_writes in
      let (low, high, inside) = sector-bounds mmu i whole lt in
      elim (Bool-cases (matched n ws program_pattern == 4)) [
        | inl on ↦ (
          store mmu.flash i (bit_and (mmu.flash i) value),
          false,
          run_patterns-without_chip_erase i value false mmu ∙ ground arith,
          programmed,
          ground arith,
        )
        | inr off ↦ elim (Bool-cases (matched n ws erase_sector_pattern == 6)) [
          | inl on ↦ (
            memset mmu.flash (sector_start mmu i) 0xff (sector_length mmu i),
            false,
            run_patterns-without_chip_erase i value false mmu ∙ ground arith,
            erased,
            ground arith,
          )
          | inr off' ↦ (
            mmu.flash,
            matched n ws program_pattern == n || matched n ws erase_sector_pattern == n,
            run_patterns-without_chip_erase i value false mmu ∙ ground arith,
            kept,
            ground (arith, matched_le_length n ws program_pattern),
          )
        ]
      ]

  -- The effect does not depend on the commands recorded.
  effect_of_recorded :
      (mmu : Mmu H) (n i value : ℕ) (ws : List FlashWrite) (bytes : ℕ → ℕ)
      → FlashEffect (record mmu { flash_write_index = n; flash_writes = ws }) i value bytes
      → FlashEffect mmu i value bytes
  unfolding sector_start sector_length
  effect_of_recorded mmu n i value ws _ kept = kept
  effect_of_recorded mmu n i value ws _ programmed = programmed
  effect_of_recorded mmu n i value ws _ erased = erased

  pub flash_command-effect :
      (mmu : Mmu H) (address i value : ℕ)
      → FlashFits mmu
      → i < mmu.flash_pages * 0x4000
      → WritesFit mmu
      → (bytes : ℕ → ℕ) × (index : ℕ) × (writes : List FlashWrite) × (flash_command address i value
            mmu
          ≡ some (record mmu { flash = bytes; flash_write_index = index; flash_writes = writes }))
        × FlashEffect mmu i value bytes
        × (length writes ≡ 6)
        × (index ≤ 5)
  unfolding flash_command record_write chip_reset WritesFit FlashFits
  flash_command-effect mmu address i value whole lt (len, five) =
      let n = mmu.flash_write_index in
      let w : FlashWrite = record {
        address = address;
        address_mask = 0;
        value = value;
        value_mask = 0;
      } in
      let writes = set mmu.flash_writes n w in
      let mmu₁ : Mmu H = record mmu { flash_write_index = n + 1; flash_writes = writes } in
      let (bytes, partial, runs, effect, partial_five) =
        run_patterns-effect mmu₁ i value whole lt (omega (arith, five)) in
      (
        bytes,
        (if partial then n + 1 else 0),
        writes,
        ground (arith, runs),
        effect_of_recorded mmu (n + 1) i value writes bytes effect,
        length-set mmu.flash_writes n w ∙ len,
        ground (arith, partial_five),
      )
