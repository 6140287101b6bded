-- ===== src/Ti/Asic/Pages.antt =====
-- Reads and writes of the memory leave the banks where the mapping ports put them.
use z80e.Common.{
  ℕ, ◌+◌, ◌*◌, Bool, true, false, Bool-cases, All, all_nil, all_cons, List, [], ◌∷◌, Option, none,
  some, ltb, leb, length, if◌then◌else◌, inl, inr, ◌==◌,
}
use z80e.Ti.Memory.{
  Mmu, bank_of, mapped, chip_reset, chip_write, chip_erase_sector, sector_start, sector_length,
  chip_erase,
}
use z80e.Ti.Memory.Flash.{
  ◌>>=◌, FlashPattern, patterns, matched, run_patterns, record_write, flash_command, ti_read_byte,
  ti_write_byte,
}
use z80e.Ti.Mapping.{Mapping, reload_mapping}
use z80e.Ti.Mapping.Laws.{PageAtMost, reload_mapping-PageAtMost}

-- The property holds of the value when there is one.
unfoldable pub OnSome : {A : Type 0} → (A → Type 0) → Option A → Type 0
OnSome Q none = Unit
OnSome Q (some a) = Q a

module _ {H : Type 0} where
  -- Every bank shows a page of its chip, or the one past the last.
  unfoldable pub PagesWithin : Mmu H → Type 0
  PagesWithin mmu =
      PageAtMost mmu mmu.bank_0
      × PageAtMost mmu mmu.bank_1
      × PageAtMost mmu mmu.bank_2
      × PageAtMost mmu mmu.bank_3

  pub reload_mapping-PagesWithin : (state : Mapping H) → PagesWithin (reload_mapping state).mmu
  unfolding PagesWithin PageAtMost reload_mapping
  reload_mapping-PagesWithin state = reload_mapping-PageAtMost state

  chip_write-PagesWithin :
      (mmu : Mmu H) (address value : ℕ)
      → PagesWithin mmu
      → OnSome PagesWithin (chip_write mmu address value)
  unfolding PagesWithin PageAtMost OnSome chip_write
  chip_write-PagesWithin mmu address value h =
      elim (Bool-cases (ltb address (mmu.flash_pages * 0x4000))) [
        | inl on ↦ rw on h
        | inr off ↦ rw off tt
      ]

  chip_erase_sector-PagesWithin :
      (mmu : Mmu H) (address value : ℕ)
      → PagesWithin mmu
      → OnSome PagesWithin (chip_erase_sector mmu address value)
  unfolding PagesWithin PageAtMost OnSome chip_erase_sector
  chip_erase_sector-PagesWithin mmu address value h =
      elim (Bool-cases
        (leb (sector_start mmu address + sector_length mmu address) (mmu.flash_pages * 0x4000))) [
          | inl on ↦ rw on h
          | inr off ↦ rw off tt
        ]

  chip_erase-PagesWithin :
      (mmu : Mmu H) (address value : ℕ)
      → PagesWithin mmu
      → OnSome PagesWithin (chip_erase mmu address value)
  unfolding PagesWithin PageAtMost OnSome chip_erase
  chip_erase-PagesWithin mmu address value h = h

  abbrev KeepsPages : (Mmu H → ℕ → ℕ → Option (Mmu H)) → Type 0
  KeepsPages handler =
      (mmu : Mmu H) (address value : ℕ)
      → PagesWithin mmu
      → OnSome PagesWithin (handler mmu address value)

  handler_done :
      (o : Option (Mmu H))
      → OnSome PagesWithin o
      → OnSome (λ (r : Mmu H × Bool). PagesWithin r.0) (o >>= (λ mmu. some (mmu, false)))
  unfolding OnSome
  handler_done none h = tt
  handler_done (some mmu) h = h

  run_patterns-PagesWithin :
      (ps : List (FlashPattern H)) (address value : ℕ) (partial : Bool) (mmu : Mmu H)
      → All (λ (p : FlashPattern H). KeepsPages p.handler) ps
      → PagesWithin mmu
      → OnSome (λ (r : Mmu H × Bool). PagesWithin r.0) (run_patterns ps address value partial mmu)
  unfolding OnSome run_patterns
  run_patterns-PagesWithin [] address value partial mmu all h = h
  run_patterns-PagesWithin (p ∷ ps) address value partial mmu (all_cons kept all) h =
      let i = matched mmu.flash_write_index mmu.flash_writes p.pattern in
      elim (Bool-cases (i == length p.pattern)) [
        | inl on ↦ rw on (handler_done (p.handler mmu address value) (kept mmu address value h))
        | inr off ↦ rw off (run_patterns-PagesWithin ps address value _ mmu all h)
      ]

  patterns-KeepsPages : All (λ (p : FlashPattern H). KeepsPages p.handler) patterns
  patterns-KeepsPages =
      all_cons chip_write-PagesWithin
        (all_cons chip_erase_sector-PagesWithin (all_cons chip_erase-PagesWithin all_nil))

  command_done :
      (o : Option (Mmu H × Bool))
      → OnSome (λ (r : Mmu H × Bool). PagesWithin r.0) o
      → OnSome PagesWithin (o >>= (λ r. some (if r.1 then r.0 else chip_reset r.0)))
  unfolding OnSome PagesWithin PageAtMost chip_reset
  command_done none h = tt
  command_done (some (mmu, true)) h = h
  command_done (some (mmu, false)) h = h

  flash_command-PagesWithin :
      (address i value : ℕ) (mmu : Mmu H)
      → PagesWithin mmu
      → OnSome PagesWithin (flash_command address i value mmu)
  unfolding OnSome flash_command record_write PagesWithin PageAtMost
  flash_command-PagesWithin address i value mmu h =
      elim (Bool-cases (ltb mmu.flash_write_index 6)) [
        | inl on ↦ rw on (
            command_done _
              (run_patterns-PagesWithin patterns i value false _ patterns-KeepsPages h))
        | inr off ↦ rw off tt
      ]

  module _ (hook_on_memory_read hook_on_memory_write : H → ℕ → ℕ → ℕ × H) where
    pub ti_read_byte-PagesWithin :
        (mmu : Mmu H) (address : ℕ)
        → PagesWithin mmu
        → OnSome
            (λ (r : ℕ × Mmu H). PagesWithin r.1)
            (ti_read_byte hook_on_memory_read hook_on_memory_write mmu address)
    unfolding OnSome ti_read_byte PagesWithin PageAtMost chip_reset
    ti_read_byte-PagesWithin mmu address h = elim (Bool-cases (bank_of mmu address).flash) [
      | inl flash ↦ elim (Bool-cases (ltb (mapped mmu address) (mmu.flash_pages * 0x4000))) [
        | inl on ↦ rw (flash, on) h
        | inr off ↦ rw (flash, off) tt
      ]
      | inr ram ↦ elim (Bool-cases (ltb (mapped mmu address) (mmu.ram_pages * 0x4000))) [
        | inl on ↦ rw (ram, on) h
        | inr off ↦ rw (ram, off) tt
      ]
    ]

    pub ti_write_byte-PagesWithin :
        (mmu : Mmu H) (address value : ℕ)
        → PagesWithin mmu
        → OnSome PagesWithin
            (ti_write_byte hook_on_memory_read hook_on_memory_write mmu address value)
    unfolding OnSome ti_write_byte PagesWithin PageAtMost
    ti_write_byte-PagesWithin mmu address value h = elim (Bool-cases (bank_of mmu address).flash) [
      | inl flash ↦ elim (Bool-cases mmu.flash_unlocked) [
        | inl on ↦ rw (flash, on) (flash_command-PagesWithin address _ _ _ h)
        | inr off ↦ rw (flash, off) h
      ]
      | inr ram ↦ elim (Bool-cases (ltb (mapped mmu address) (mmu.ram_pages * 0x4000))) [
        | inl on ↦ rw (ram, on) h
        | inr off ↦ rw (ram, off) tt
      ]
    ]
