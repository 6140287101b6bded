-- ===== src/Ti/Memory/Flash.antt =====
-- The reads and writes of libz80e/src/ti/memory.c, with the table `patterns` of Flash commands.
pub mod Safe
pub mod Effect
pub mod Access
pub mod Commands
use z80e.Common.{
  ℕ, zero, suc, ◌+◌, ◌-◌, ◌*◌, ◌/◌, ◌%◌, ◌^◌, Bool, true, false, not, ◌&&◌, ◌||◌, List, [], ◌∷◌,
  Option, none, some, bit_and, ltb, leb, ◌==◌, if◌then◌else◌, switch, length, set, u8,
}
use z80e.Ti.Memory.{
  Bank, FlashWrite, Mmu, bank_of, mapped, store, chip_reset, chip_write, chip_erase_sector,
  chip_erase,
}

-- An access outside an array ends the computation.
infixl 5 ◌>>=◌
abbrev pub ◌>>=◌ : {A B : Type 0} → Option A → (A → Option B) → Option B
none >>= k = none
some a >>= k = k a

-- `struct flash_pattern`: `.length` is the length of `pattern`.
pub record FlashPattern (H : Type 0) : Type 0 where
  pub pattern : List FlashWrite
  pub handler : Mmu H → ℕ → ℕ → Option (Mmu H)

abbrev pub exactly : ℕ → ℕ → FlashWrite
exactly address value = record {
  address = address;
  address_mask = 0xfff;
  value = value;
  value_mask = 0xff;
}

abbrev pub anything : FlashWrite
anything = record { address = 0; address_mask = 0; value = 0; value_mask = 0 }

abbrev pub program_pattern : List FlashWrite
program_pattern = exactly 0xaaa 0xaa ∷ exactly 0x555 0x55 ∷ exactly 0xaaa 0xa0 ∷ anything ∷ []

abbrev pub erase_sector_pattern : List FlashWrite
erase_sector_pattern =
    exactly 0xaaa 0xaa
    ∷ exactly 0x555 0x55
    ∷ exactly 0xaaa 0x80
    ∷ exactly 0xaaa 0xaa
    ∷ exactly 0x555 0x55
    ∷ anything
    ∷ []

abbrev pub erase_pattern : List FlashWrite
erase_pattern =
    exactly 0xaaa 0xaa
    ∷ exactly 0x555 0x55
    ∷ exactly 0xaaa 0x80
    ∷ exactly 0xaaa 0xaa
    ∷ exactly 0x555 0x55
    ∷ exactly 0xaaa 0x10
    ∷ []

-- `patterns`, in the order of the search.
abbrev pub patterns : {H : Type 0} → List (FlashPattern H)
patterns =
    record { pattern = program_pattern; handler = chip_write }
    ∷ record { pattern = erase_sector_pattern; handler = chip_erase_sector }
    ∷ record { pattern = erase_pattern; handler = chip_erase }
    ∷ []

unfoldable pub fits : FlashWrite → FlashWrite → Bool
fits w p = bit_and w.address p.address_mask == p.address && bit_and w.value p.value_mask == p.value

-- The `for` loop over `i`: how many of the first `n` writes fit the pattern from its start.
unfoldable pub matched : ℕ → List FlashWrite → List FlashWrite → ℕ
matched zero ws ps = 0
matched (suc n) [] ps = 0
matched (suc n) (w ∷ ws) [] = 0
matched (suc n) (w ∷ ws) (p ∷ ps) = let rest = matched n ws ps in if fits w p then suc rest else 0

module _ {H : Type 0} where
  -- The `for` loop over `patterns`: the handler's effect, and `partial_match` after the loop.
  unfoldable pub run_patterns : List (FlashPattern H) → ℕ → ℕ → Bool → Mmu H → Option (Mmu H × Bool)
  run_patterns [] address value partial mmu = some (mmu, partial)
  run_patterns (p ∷ ps) address value partial mmu =
      let i = matched mmu.flash_write_index mmu.flash_writes p.pattern in
      let rest = run_patterns ps address value (partial || i == mmu.flash_write_index) mmu in
      if i == length p.pattern
      then (do mmu' ← p.handler mmu address value; some (mmu', false))
      else rest

  -- `flash_writes[flash_write_index++] = (address, value)`; the masks stay.
  unfoldable pub record_write : ℕ → ℕ → Mmu H → Option (Mmu H)
  record_write address value mmu =
      if ltb mmu.flash_write_index 6
      then some (record mmu {
        flash_writes =
            set mmu.flash_writes mmu.flash_write_index
              (record { address = address; address_mask = 0; value = value; value_mask = 0 });
        flash_write_index = mmu.flash_write_index + 1;
      })
      else none

  unfoldable pub flash_command : ℕ → ℕ → ℕ → Mmu H → Option (Mmu H)
  flash_command address mapped_address value mmu = do
    mmu₁ ← record_write address value mmu
    searched ← run_patterns patterns mapped_address value false mmu₁
    some (if searched.1 then searched.0 else chip_reset searched.0)

  module _ (hook_on_memory_read hook_on_memory_write : H → ℕ → ℕ → ℕ × H) where
    unfoldable pub ti_read_byte : Mmu H → ℕ → Option (ℕ × Mmu H)
    ti_read_byte mmu address =
        let i = mapped mmu address in
        if (bank_of mmu address).flash
        then (if ltb i (mmu.flash_pages * 0x4000)
            then (let (v, hook) = hook_on_memory_read mmu.hook address (mmu.flash i) in
                some (u8 v, record (chip_reset mmu) { hook = hook }))
            else none)
        else (if ltb i (mmu.ram_pages * 0x4000)
            then (let (v, hook) = hook_on_memory_read mmu.hook address (mmu.ram i) in
                some (u8 v, record mmu { hook = hook }))
            else none)

    unfoldable pub ti_write_byte : Mmu H → ℕ → ℕ → Option (Mmu H)
    ti_write_byte mmu address value =
        let i = mapped mmu address in
        let (v, hook) = hook_on_memory_write mmu.hook address value in
        let mmu' : Mmu H = record mmu { hook = hook } in
        if (bank_of mmu address).flash
        then (if mmu.flash_unlocked then flash_command address i (u8 v) mmu' else some mmu')
        else (if ltb i (mmu.ram_pages * 0x4000)
            then some (record mmu' { ram = store mmu.ram i (u8 v) })
            else none)

    unfoldable pub mmu_force_write : Mmu H → ℕ → ℕ → Option (Mmu H)
    mmu_force_write mmu address value =
        let i = mapped mmu address in
        let (v, hook) = hook_on_memory_write mmu.hook address value in
        let mmu' : Mmu H = record mmu { hook = hook } in
        if (bank_of mmu address).flash
        then (if ltb i (mmu.flash_pages * 0x4000)
            then some (record mmu' { flash = store mmu.flash i (u8 v) })
            else none)
        else (if ltb i (mmu.ram_pages * 0x4000)
            then some (record mmu' { ram = store mmu.ram i (u8 v) })
            else none)
