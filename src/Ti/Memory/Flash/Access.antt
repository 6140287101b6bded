-- ===== src/Ti/Memory/Flash/Access.antt =====
-- `ti_read_byte` and `ti_write_byte` as the processor sees them.
use z80e.Common.{ℕ, ◌<◌, ◌≡◌, inl, inr, arith, false, ◌&&◌, Bool-cases, some, if◌then◌else◌, u8}
use z80e.Ti.Memory.{Mmu, bank_of, mapped, store, sector_length, sector_start}
use z80e.Ti.Memory.Flash.{ti_read_byte, ti_write_byte}
use z80e.Ti.Memory.Flash.Safe.{WritesFit, FlashFits}
use z80e.Ti.Memory.Flash.Effect.{FlashEffect, kept, programmed, erased, flash_command-effect}

-- The page that the address is mapped to is one that the chip has.
unfoldable pub PageFits : {H : Type 0} → Mmu H → ℕ → Type 0
PageFits mmu address =
    (bank_of mmu address).page
    < (if (bank_of mmu address).flash then mmu.flash_pages else mmu.ram_pages)

module _ {H : Type 0} (hook_on_memory_read hook_on_memory_write : H → ℕ → ℕ → ℕ × H) where
  effect_of_hook :
      (mmu : Mmu H) (hook : H) (i value : ℕ) (bytes : ℕ → ℕ)
      → FlashEffect (record mmu { hook = hook }) i value bytes
      → FlashEffect mmu i value bytes
  unfolding sector_start sector_length
  effect_of_hook mmu hook i value _ kept = kept
  effect_of_hook mmu hook i value _ programmed = programmed
  effect_of_hook mmu hook i value _ erased = erased

  -- When the page at the address is one that the chip has, the chip is made of whole blocks of
  -- 64 KiB and fewer than six writes of a Flash command are recorded: a write ends with no access
  -- outside an array; fewer than six writes are recorded again; RAM changes exactly at the mapped
  -- offset, and only when RAM is mapped; the Flash chip keeps its bytes unless a Flash page is
  -- mapped and the chip is unlocked, and then it keeps them, or clears the bits of one byte that
  -- are clear in the value, or has one sector that holds the address filled with 0xff.
  pub ti_write_byte-effect :
      (mmu : Mmu H) (address value : ℕ)
      → PageFits mmu address
      → FlashFits mmu
      → WritesFit mmu
      → (mmu' : Mmu H) × (ti_write_byte hook_on_memory_read hook_on_memory_write mmu address value
          ≡ some mmu')
        × WritesFit mmu'
        × (mmu'.ram ≡ (
            if (bank_of mmu address).flash
            then mmu.ram
            else store mmu.ram
                (mapped mmu address)
                (u8 (hook_on_memory_write mmu.hook address value).0)))
        × (mmu'.flash
            ≡ (if (bank_of mmu address).flash && mmu.flash_unlocked then mmu'.flash else mmu.flash))
        × FlashEffect mmu
            (mapped mmu address)
            (u8 (hook_on_memory_write mmu.hook address value).0)
            mmu'.flash
  unfolding ti_write_byte PageFits WritesFit FlashFits mapped
  ti_write_byte-effect mmu address value page whole fit =
      let i = mapped mmu address in
      let v = u8 (hook_on_memory_write mmu.hook address value).0 in
      let mmu₁ : Mmu H = record mmu { hook = (hook_on_memory_write mmu.hook address value).1 } in
      elim (Bool-cases (bank_of mmu address).flash) [
        | inr ram ↦ (
          record mmu₁ { ram = store mmu.ram i v },
          ground arith,
          fit,
          ground arith,
          ground arith,
          kept,
        )
        | inl flash ↦ elim (Bool-cases mmu.flash_unlocked) [
          | inr locked ↦ (mmu₁, ground arith, fit, ground arith, ground arith, kept)
          | inl unlocked ↦
              let (bytes, index, ws, runs, effect, len, five) =
                flash_command-effect mmu₁ address i v whole (ground arith) fit in
              (
                record mmu₁ { flash = bytes; flash_write_index = index; flash_writes = ws },
                ground (arith, runs),
                (len, five),
                ground arith,
                ground arith,
                effect_of_hook mmu (mmu₁.hook) i v bytes effect,
              )
        ]
      ]

  -- With hooks that change nothing: a byte written to RAM is read back at any address that is
  -- mapped to the same offset of RAM.
  pub ti_read_byte-ti_write_byte :
      ((h : H) (address value : ℕ) → hook_on_memory_read h address value ≡ (value, h))
      → ((h : H) (address value : ℕ) → hook_on_memory_write h address value ≡ (value, h))
      → (mmu : Mmu H) (a b value : ℕ) → PageFits mmu a
      → (bank_of mmu a).flash ≡ false
      → (bank_of mmu b).flash ≡ false
      → mapped mmu b ≡ mapped mmu a
      → (mmu' : Mmu H) × (ti_write_byte hook_on_memory_read hook_on_memory_write mmu a value
          ≡ some mmu')
        × (ti_read_byte hook_on_memory_read hook_on_memory_write mmu' b ≡ some (u8 value, mmu'))
  unfolding ti_write_byte ti_read_byte PageFits mapped bank_of
  ti_read_byte-ti_write_byte reads writes mmu a b value page ram_a ram_b same = (
    record mmu { ram = store mmu.ram (mapped mmu a) (u8 value) },
    ground (arith, writes mmu.hook a value),
    ground (arith, same, reads mmu.hook b (u8 value)),
  )
