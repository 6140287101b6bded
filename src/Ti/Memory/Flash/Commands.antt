-- ===== src/Ti/Memory/Flash/Commands.antt =====
-- The command sequences of the Flash chip, run to their end.
use z80e.Common.{
  ℕ, ◌*◌, ◌<◌, ◌≡◌, refl, ap, ◌∙◌, arith, List, [], ◌∷◌, Option, some, bit_and, bit_and-low, length,
}
use z80e.Ti.Memory.{FlashWrite, Mmu, store, chip_reset, chip_write}
use z80e.Ti.Memory.Flash.{matched, run_patterns, record_write, fits, flash_command, ◌>>=◌}

six_of_length :
    (ws : List FlashWrite)
    → length ws ≡ 6
    → (a b c d e f : FlashWrite) × (ws ≡ a ∷ b ∷ c ∷ d ∷ e ∷ f ∷ [])
six_of_length (a ∷ b ∷ c ∷ d ∷ e ∷ f ∷ []) h = (a, b, c, d, e, f, refl)
six_of_length [] h = absurd (omega arith)
six_of_length (a ∷ []) h = absurd (omega arith)
six_of_length (a ∷ b ∷ []) h = absurd (omega arith)
six_of_length (a ∷ b ∷ c ∷ []) h = absurd (omega arith)
six_of_length (a ∷ b ∷ c ∷ d ∷ []) h = absurd (omega arith)
six_of_length (a ∷ b ∷ c ∷ d ∷ e ∷ []) h = absurd (omega arith)
six_of_length (a ∷ b ∷ c ∷ d ∷ e ∷ f ∷ g ∷ ws) h = absurd (omega arith)

abbrev written : ℕ → ℕ → FlashWrite
written a value = record { address = a; address_mask = 0; value = value; value_mask = 0 }

module _ {H : Type 0} where
  -- Writes to unlocked Flash, each an address, the offset it is mapped to, and a value.
  unfoldable pub flash_commands : List (ℕ × ℕ × ℕ) → Mmu H → Option (Mmu H)
  flash_commands [] mmu = some mmu
  flash_commands ((address, i, value) ∷ cs) mmu =
      flash_command address i value mmu >>= flash_commands cs

  abbrev recorded : ℕ → List FlashWrite → Mmu H → Mmu H
  recorded n ws mmu = record mmu { flash_write_index = n; flash_writes = ws }

  first :
      (mmu : Mmu H) (a i : ℕ) (w₀ w₁ w₂ w₃ w₄ w₅ : FlashWrite)
      → bit_and a 0xfff ≡ 0xaaa
      → flash_command a i 0xaa (recorded 0 (w₀ ∷ w₁ ∷ w₂ ∷ w₃ ∷ w₄ ∷ w₅ ∷ []) mmu)
        ≡ some (recorded 1 (written a 0xaa ∷ w₁ ∷ w₂ ∷ w₃ ∷ w₄ ∷ w₅ ∷ []) mmu)
  unfolding flash_command record_write run_patterns matched fits chip_reset chip_write
  first mmu a i w₀ w₁ w₂ w₃ w₄ w₅ ea = rw ea refl

  second :
      (mmu : Mmu H) (a b j : ℕ) (w₁ w₂ w₃ w₄ w₅ : FlashWrite)
      → bit_and a 0xfff ≡ 0xaaa
      → bit_and b 0xfff ≡ 0x555
      → flash_command b j 0x55 (recorded 1 (written a 0xaa ∷ w₁ ∷ w₂ ∷ w₃ ∷ w₄ ∷ w₅ ∷ []) mmu)
        ≡ some (recorded 2 (written a 0xaa ∷ written b 0x55 ∷ w₂ ∷ w₃ ∷ w₄ ∷ w₅ ∷ []) mmu)
  unfolding flash_command record_write run_patterns matched fits chip_reset chip_write
  second mmu a b j w₁ w₂ w₃ w₄ w₅ ea eb = rw (ea, eb) refl

  third :
      (mmu : Mmu H) (a b c k : ℕ) (w₂ w₃ w₄ w₅ : FlashWrite)
      → bit_and a 0xfff ≡ 0xaaa
      → bit_and b 0xfff ≡ 0x555
      → bit_and c 0xfff ≡ 0xaaa
      → flash_command c k 0xa0
          (recorded 2 (written a 0xaa ∷ written b 0x55 ∷ w₂ ∷ w₃ ∷ w₄ ∷ w₅ ∷ []) mmu)
        ≡ some
            (recorded 3 (written a 0xaa ∷ written b 0x55 ∷ written c 0xa0 ∷ w₃ ∷ w₄ ∷ w₅ ∷ []) mmu)
  unfolding flash_command record_write run_patterns matched fits chip_reset chip_write
  third mmu a b c k w₂ w₃ w₄ w₅ ea eb ec = rw (ea, eb, ec) refl

  fourth :
      (mmu : Mmu H) (a b c d l value : ℕ) (w₃ w₄ w₅ : FlashWrite)
      → bit_and a 0xfff ≡ 0xaaa
      → bit_and b 0xfff ≡ 0x555
      → bit_and c 0xfff ≡ 0xaaa
      → l < mmu.flash_pages * 0x4000
      → flash_command d l value
          (recorded 3 (written a 0xaa ∷ written b 0x55 ∷ written c 0xa0 ∷ w₃ ∷ w₄ ∷ w₅ ∷ []) mmu)
        ≡ some (record mmu {
          flash = store mmu.flash l (bit_and (mmu.flash l) value);
          flash_write_index = 0;
          flash_writes =
              written a 0xaa ∷ written b 0x55 ∷ written c 0xa0 ∷ written d value ∷ w₄ ∷ w₅ ∷ [];
        })
  unfolding flash_command record_write run_patterns matched fits chip_reset chip_write
  fourth mmu a b c d l value w₃ w₄ w₅ ea eb ec inside =
      rw (ea, eb, ec, bit_and-low 0 d, bit_and-low 0 value) (ground arith)

  -- From a chip with no command begun: the three writes that unlock programming, at any addresses
  -- whose low twelve bits are 0xaaa, 0x555 and 0xaaa, and then a write of a value at an offset of
  -- the chip, clear in that byte the bits that are clear in the value, keep all other bytes, and
  -- leave no command begun.
  pub program_command :
      (mmu : Mmu H) (a b c d i j k l value : ℕ)
      → length mmu.flash_writes ≡ 6
      → mmu.flash_write_index ≡ 0
      → bit_and a 0xfff ≡ 0xaaa
      → bit_and b 0xfff ≡ 0x555
      → bit_and c 0xfff ≡ 0xaaa
      → l < mmu.flash_pages * 0x4000
      → (writes : List FlashWrite) × (flash_commands
            ((a, i, 0xaa) ∷ (b, j, 0x55) ∷ (c, k, 0xa0) ∷ (d, l, value) ∷ [])
            mmu
          ≡ some (record mmu {
            flash = store mmu.flash l (bit_and (mmu.flash l) value);
            flash_write_index = 0;
            flash_writes = writes;
          }))
  unfolding flash_commands
  program_command mmu a b c d i j k l value len start ea eb ec inside =
      let (w₀, w₁, w₂, w₃, w₄, w₅, e) = six_of_length mmu.flash_writes len in
      let as_recorded : mmu ≡ recorded 0 (w₀ ∷ w₁ ∷ w₂ ∷ w₃ ∷ w₄ ∷ w₅ ∷ []) mmu =
        rw (← e, ← start) refl in
      (
        written a 0xaa ∷ written b 0x55 ∷ written c 0xa0 ∷ written d value ∷ w₄ ∷ w₅ ∷ [],
        ap (flash_commands ((a, i, 0xaa) ∷ (b, j, 0x55) ∷ (c, k, 0xa0) ∷ (d, l, value) ∷ []))
              as_recorded
            ∙ rw
                (
                  first mmu a i w₀ w₁ w₂ w₃ w₄ w₅ ea,
                  second mmu a b j w₁ w₂ w₃ w₄ w₅ ea eb,
                  third mmu a b c k w₂ w₃ w₄ w₅ ea eb ec,
                  fourth mmu a b c d l value w₃ w₄ w₅ ea eb ec inside,
                )
                refl,
      )
