-- ===== src/Ti/Tests.antt =====
-- The theorems on the hardware at concrete inputs.
pub mod Devices
pub mod Hardware
use z80e.Common.{
  ℕ, ◌*◌, ◌<◌, ◌≡◌, refl, arith, true, false, ◌&&◌, List, [], ◌∷◌, none, some, if◌then◌else◌,
  bit_and, ◌|||◌, length, switch,
}
use z80e.Ti.Memory.{
  ti84p, ti84p_cse, FlashWrite, Mmu, ti_mmu_init, bank_of, mapped, store, ram_pages_of,
  flash_pages_of, chip_write, chip_erase_sector,
}
use z80e.Ti.Memory.Flash.{
  patterns, program_pattern, erase_sector_pattern, run_patterns, ti_read_byte, ti_write_byte,
  exactly,
}
use z80e.Ti.Memory.Flash.Safe.{WritesFit, FlashFits, run_patterns-without_chip_erase}
use z80e.Ti.Memory.Flash.Effect.{FlashEffect}
use z80e.Ti.Memory.Flash.Access.{PageFits, ti_write_byte-effect, ti_read_byte-ti_write_byte}
use z80e.Ti.Memory.Flash.Commands.{flash_commands, program_command}
use z80e.Ti.Interrupts.{
  Interrupts, any, init_interrupts, ti_interrupts_interrupt, ti_interrupts_set_interrupt_enabled,
  read_interrupt_mask, write_interrupt_mask, read_interrupting_device,
  write_acknowledged_interrupts,
}
use z80e.Ti.Interrupts.Laws.{
  start, next, set_enabled, interrupt, pin-any, read_interrupt_mask-write_interrupt_mask,
  read_interrupting_device-write_acknowledged_interrupts,
}
use z80e.Ti.Mapping.{
  Mapping, is_ti83p, init_mapping_ports, reload_mapping, page_mask, ram_mark,
  read_bank_a_paging_port, write_bank_a_paging_port, write_ram_paging_port,
}
use z80e.Ti.Mapping.Laws.{
  PageAtMost, reload_mapping-PageAtMost, read_bank_a_paging_port-write_bank_a_paging_port,
  ti_read_byte-write_ram_paging_port,
}

-- A hook that changes nothing, with no state.
abbrev pass : Unit {0} → ℕ → ℕ → ℕ × Unit {0}
pass h address value = (value, h)

abbrev mmu : Mmu (Unit {0})
mmu = ti_mmu_init ti84p tt

abbrev unlocked : Mmu (Unit {0})
unlocked = record mmu { flash_unlocked = true }

unlocked-FlashFits : FlashFits unlocked
unfolding FlashFits ti_mmu_init flash_pages_of
unlocked-FlashFits = (refl, omega arith)

unlocked-WritesFit : WritesFit unlocked
unfolding WritesFit ti_mmu_init
unlocked-WritesFit = (refl, omega arith)

unlocked-PageFits : PageFits unlocked 0x4aaa
unfolding PageFits ti_mmu_init bank_of flash_pages_of ram_pages_of switch
unlocked-PageFits = omega arith

ti_write_byte-effect_example :
    (mmu' : Mmu (Unit {0})) × (ti_write_byte pass pass unlocked 0x4aaa 0xaa ≡ some mmu')
    × WritesFit mmu'
    × (mmu'.ram ≡ (
        if (bank_of unlocked 0x4aaa).flash
        then unlocked.ram
        else store unlocked.ram (mapped unlocked 0x4aaa) 0xaa))
    × (mmu'.flash ≡ (
        if (bank_of unlocked 0x4aaa).flash && unlocked.flash_unlocked
        then mmu'.flash
        else unlocked.flash))
    × FlashEffect unlocked (mapped unlocked 0x4aaa) 0xaa mmu'.flash
ti_write_byte-effect_example =
    ti_write_byte-effect pass pass unlocked 0x4aaa 0xaa unlocked-PageFits unlocked-FlashFits
      unlocked-WritesFit

mmu-PageFits : PageFits mmu 0xc123
unfolding PageFits ti_mmu_init bank_of flash_pages_of ram_pages_of switch
mmu-PageFits = omega arith

in_ram : (bank_of mmu 0xc123).flash ≡ false
unfolding ti_mmu_init bank_of switch
in_ram = refl

ti_read_byte-ti_write_byte_example :
    (mmu' : Mmu (Unit {0})) × (ti_write_byte pass pass mmu 0xc123 77 ≡ some mmu')
    × (ti_read_byte pass pass mmu' 0xc123 ≡ some (77, mmu'))
ti_read_byte-ti_write_byte_example =
    ti_read_byte-ti_write_byte pass pass (λ h a v. refl) (λ h a v. refl) mmu 0xc123 0xc123 77
      mmu-PageFits in_ram in_ram refl

no_command : unlocked.flash_write_index ≡ 0
unfolding ti_mmu_init
no_command = refl

six_writes : length unlocked.flash_writes ≡ 6
unfolding ti_mmu_init
six_writes = refl

inside_chip : 0x123 < unlocked.flash_pages * 0x4000
unfolding ti_mmu_init flash_pages_of
inside_chip = omega arith

program_command_example :
    (writes : List FlashWrite) × (flash_commands
        ((0x4aaa, 0xaaa, 0xaa)
          ∷ (0x4555, 0x555, 0x55)
          ∷ (0x4aaa, 0xaaa, 0xa0)
          ∷ (0x4123, 0x123, 0x5a)
          ∷ [])
        unlocked
      ≡ some (record unlocked {
        flash = store unlocked.flash 0x123 (bit_and (unlocked.flash 0x123) 0x5a);
        flash_write_index = 0;
        flash_writes = writes;
      }))
program_command_example =
    program_command unlocked 0x4aaa 0x4555 0x4aaa 0x4123 0xaaa 0x555 0xaaa 0x123 0x5a six_writes
      no_command refl refl refl inside_chip

-- The six writes of the command for the whole chip.
abbrev erasing : Mmu (Unit {0})
erasing = record unlocked {
  flash_write_index = 6;
  flash_writes =
      exactly 0xaaa 0xaa
      ∷ exactly 0x555 0x55
      ∷ exactly 0xaaa 0x80
      ∷ exactly 0xaaa 0xaa
      ∷ exactly 0x555 0x55
      ∷ exactly 0xaaa 0x10
      ∷ [];
}

run_patterns-without_chip_erase_example :
    run_patterns patterns 0xaaa 0x10 false erasing
    ≡ run_patterns
        (record { pattern = program_pattern; handler = chip_write }
          ∷ record { pattern = erase_sector_pattern; handler = chip_erase_sector }
          ∷ [])
        0xaaa
        0x10
        false
        erasing
run_patterns-without_chip_erase_example = run_patterns-without_chip_erase 0xaaa 0x10 false erasing

abbrev key_pressed : Interrupts
key_pressed = ti_interrupts_interrupt (ti_interrupts_set_interrupt_enabled init_interrupts 1 true) 1

pin-any_example : key_pressed.pin ≡ any key_pressed.interrupted
pin-any_example = pin-any (
    next (next start (set_enabled init_interrupts 1 true))
      (interrupt (ti_interrupts_set_interrupt_enabled init_interrupts 1 true) 1))

read_interrupt_mask-write_interrupt_mask_example :
    read_interrupt_mask (write_interrupt_mask key_pressed 0x5b) ≡ 0x5b
read_interrupt_mask-write_interrupt_mask_example =
    read_interrupt_mask-write_interrupt_mask key_pressed 0x5b (omega arith)

read_interrupting_device-write_acknowledged_interrupts_case :
    read_interrupting_device (write_acknowledged_interrupts key_pressed 0x12)
    ≡ bit_and (read_interrupting_device key_pressed) 0x1a
read_interrupting_device-write_acknowledged_interrupts_case =
    read_interrupting_device-write_acknowledged_interrupts key_pressed 0x12

abbrev mapping : Mapping (Unit {0})
mapping = init_mapping_ports ti84p_cse (ti_mmu_init ti84p_cse tt)

reload_mapping-PageAtMost_example :
    PageAtMost mapping.mmu (reload_mapping mapping).mmu.bank_0
    × PageAtMost mapping.mmu (reload_mapping mapping).mmu.bank_1
    × PageAtMost mapping.mmu (reload_mapping mapping).mmu.bank_2
    × PageAtMost mapping.mmu (reload_mapping mapping).mmu.bank_3
reload_mapping-PageAtMost_example = reload_mapping-PageAtMost mapping

read_bank_a_paging_port-write_bank_a_paging_port_example :
    read_bank_a_paging_port (write_bank_a_paging_port mapping 0x83)
    ≡ bit_and 0x83 (if is_ti83p mapping.device then 0x5f else 0xff)
read_bank_a_paging_port-write_bank_a_paging_port_example =
    read_bank_a_paging_port-write_bank_a_paging_port mapping 0x83

is_cse : (mapping.map_mode ≡ false) × (bit_and 3 7 ≡ mapping.mmu.ram_pages)
unfolding init_mapping_ports reload_mapping ti_mmu_init ram_pages_of
is_cse = (refl, refl)

not_ti83p : is_ti83p mapping.device ≡ false
unfolding init_mapping_ports reload_mapping
not_ti83p = refl

ti_read_byte-write_ram_paging_port_example :
    ti_read_byte pass pass (write_ram_paging_port mapping 3).mmu 0xc123 ≡ none
ti_read_byte-write_ram_paging_port_example =
    ti_read_byte-write_ram_paging_port pass pass mapping 3 0xc123 not_ti83p is_cse.0 is_cse.1
      (omega arith) (omega arith)
