-- ===== src/Ti/Memory.antt =====
-- libz80e/src/ti/memory.c: the memory management unit, RAM, and the command interface of the Flash
-- chip. A chip's bytes are a function of the offset; an access outside an array gives `none`. The
-- hooks are functions of the state `H` that `mmu->hook` points to.
pub mod Flash
use z80e.Common.{
  ℕ, zero, suc, ◌+◌, ◌-◌, ◌*◌, ◌/◌, ◌%◌, ◌^◌, Bool, true, false, not, ◌&&◌, ◌||◌, List, [], ◌∷◌,
  Option, none, some, bit_and, ltb, leb, ◌==◌, if◌then◌else◌, switch, length, set, replicate, u8,
  u16, ◌>>>◌,
}

-- `ti_device_type`.
pub data DeviceType : Type 0 where
  ti73 : DeviceType
  ti83p : DeviceType
  ti83p_se : DeviceType
  ti84p : DeviceType
  ti84p_se : DeviceType
  ti84p_cse : DeviceType

-- `ti_mmu_bank_state_t`.
pub record Bank : Type 0 where
  pub page : ℕ
  pub flash : Bool

-- `flash_write_t`; the masks are used in the patterns only.
pub record FlashWrite : Type 0 where
  pub address : ℕ
  pub address_mask : ℕ
  pub value : ℕ
  pub value_mask : ℕ

-- `ti_mmu_t`.
pub record Mmu (H : Type 0) : Type 0 where
  pub ram_pages : ℕ
  pub flash_pages : ℕ
  pub bank_0 : Bank
  pub bank_1 : Bank
  pub bank_2 : Bank
  pub bank_3 : Bank
  pub ram : ℕ → ℕ
  pub flash : ℕ → ℕ
  pub flash_unlocked : Bool
  pub flash_write_index : ℕ
  pub flash_writes : List FlashWrite
  pub hook : H

unfoldable pub ram_pages_of : DeviceType → ℕ
ram_pages_of ti73 = 3
ram_pages_of ti83p = 3
ram_pages_of ti83p_se = 8
ram_pages_of ti84p = 8
ram_pages_of ti84p_se = 8
ram_pages_of ti84p_cse = 3

unfoldable pub flash_pages_of : DeviceType → ℕ
flash_pages_of ti73 = 0x20
flash_pages_of ti83p = 0x20
flash_pages_of ti83p_se = 0x80
flash_pages_of ti84p = 0x40
flash_pages_of ti84p_se = 0x80
flash_pages_of ti84p_cse = 0x100

abbrev pub no_write : FlashWrite
no_write = record { address = 0; address_mask = 0; value = 0; value_mask = 0 }

unfoldable pub ti_mmu_init : {H : Type 0} → DeviceType → H → Mmu H
ti_mmu_init device hook = record {
  ram_pages = ram_pages_of device;
  flash_pages = flash_pages_of device;
  bank_0 = record { page = 0; flash = true };
  bank_1 = record { page = 0; flash = true };
  bank_2 = record { page = 0; flash = true };
  bank_3 = record { page = 0; flash = false };
  ram = λ _. 0;
  flash = λ _. 0xff;
  flash_unlocked = false;
  flash_write_index = 0;
  flash_writes = replicate 6 no_write;
  hook = hook;
}

-- `memset(&bytes[from], value, length)`.
abbrev pub memset : (ℕ → ℕ) → ℕ → ℕ → ℕ → ℕ → ℕ
memset bytes from value len j = if leb from j && ltb j (from + len) then value else bytes j

abbrev pub store : (ℕ → ℕ) → ℕ → ℕ → ℕ → ℕ
store bytes i value j = if j == i then value else bytes j

module _ {H : Type 0} where
  unfoldable pub bank_of : Mmu H → ℕ → Bank
  bank_of mmu address =
      switch (address / 0x4000) mmu.bank_3 (mmu.bank_0 ∷ mmu.bank_1 ∷ mmu.bank_2 ∷ mmu.bank_3 ∷ [])

  -- `mapped_address`.
  unfoldable pub mapped : Mmu H → ℕ → ℕ
  mapped mmu address = address % 0x4000 + (bank_of mmu address).page * 0x4000

  unfoldable pub chip_reset : Mmu H → Mmu H
  chip_reset mmu = record mmu { flash_write_index = 0 }

  unfoldable pub chip_write : Mmu H → ℕ → ℕ → Option (Mmu H)
  chip_write mmu address value =
      if ltb address (mmu.flash_pages * 0x4000)
      then some (record mmu { flash = store mmu.flash address (bit_and (mmu.flash address) value) })
      else none

  -- The last 64 KiB of the chip are smaller sectors.
  unfoldable pub sector_length : Mmu H → ℕ → ℕ
  sector_length mmu address =
      if (address >>> 16) + 1 == mmu.flash_pages >>> 2
      then switch ((address >>> 13) % 8) 0x10000
          (0x8000 ∷ 0x8000 ∷ 0x8000 ∷ 0x8000 ∷ 0x2000 ∷ 0x2000 ∷ 0x4000 ∷ 0x4000 ∷ [])
      else 0x10000

  -- `address & ~(length - 1)`, where the length is a power of two.
  unfoldable pub sector_start : Mmu H → ℕ → ℕ
  sector_start mmu address = address / sector_length mmu address * sector_length mmu address

  unfoldable pub chip_erase_sector : Mmu H → ℕ → ℕ → Option (Mmu H)
  chip_erase_sector mmu address value =
      let len = sector_length mmu address in
      let start = sector_start mmu address in
      if leb (start + len) (mmu.flash_pages * 0x4000)
      then some (record mmu { flash = memset mmu.flash start 0xff len })
      else none

  unfoldable pub chip_erase : Mmu H → ℕ → ℕ → Option (Mmu H)
  chip_erase mmu address value =
      some (record mmu { flash = memset mmu.flash 0 0xff (mmu.flash_pages * 0x4000) })
