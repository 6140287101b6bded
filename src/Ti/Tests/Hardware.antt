-- ===== src/Ti/Tests/Hardware.antt =====
-- A program that runs on the whole hardware.
use z80e.Common.{ℕ, suc, ◌≡◌, refl, arith, false, [], ◌∷◌, some, get_or}
use z80e.Core.Code.{cpu_code}
use z80e.Core.Registers.{Registers}
use z80e.Core.Cpu.{Cpu}
use z80e.Core.Cpu.Execute.{cpu_execute}
use z80e.Core.Cpu.Execute.Rounds.{rounds}
use z80e.Core.Cpu.Invariant.Pure.{RegistersFit}
use z80e.Ti.Memory.{ti84p, ti_mmu_init, bank_of, mapped, chip_reset, ram_pages_of, flash_pages_of}
use z80e.Ti.Memory.Flash.{ti_read_byte, ti_write_byte}
use z80e.Ti.Mapping.{init_mapping_ports, reload_mapping, check_page, mapped_1, mapped_2, mapped_3}
use z80e.Ti.Interrupts.{init_interrupts}
use z80e.Ti.Lcd.{setup_lcd_display, bw_lcd_reset, bw_lcd_status_write}
use z80e.Ti.Tests.Devices.{hundredths}
use z80e.Ti.Asic.{Asic, AsicHooks}
use z80e.Ti.Asic.Ports.{plug_devices, mirrored, write_device}
use z80e.Ti.Asic.Machine.{
  asic_board, asic_read_byte, asic_write_byte, read_port, write_port, asic_init,
}
use z80e.Ti.Mapping.Laws.{PageAtMost}
use z80e.Ti.Asic.Pages.{PagesWithin}
use z80e.Ti.Asic.Fits.{HardwareFits}
use z80e.Ti.Asic.Fits.Run.{asic_init-HardwareFits}
use z80e.Ti.Asic.Stuck.{cpu_execute_inside}

-- Hooks that count the updates of the display.
abbrev pub counting : AsicHooks ℕ
counting = record {
  on_memory_read = λ w address value. (value, w);
  on_memory_write = λ w address value. (value, w);
  on_port_in = λ w port value. (value, w);
  on_port_out = λ w port value. (value, w);
  on_lcd_update = λ lcd. suc lcd.hook;
}

abbrev pub fresh_asic : Asic ℕ ℕ
fresh_asic = asic_init hundredths counting ti84p (λ _. 0) 0 0

abbrev pub zero_registers : Registers
zero_registers = record {
  a = 0;
  f = 0;
  b = 0;
  c = 0;
  d = 0;
  e = 0;
  h = 0;
  l = 0;
  af' = 0;
  bc' = 0;
  de' = 0;
  hl' = 0;
  pc = 0xc000;
  sp = 0;
  ixh = 0;
  ixl = 0;
  iyh = 0;
  iyl = 0;
  i = 0;
  r = 0;
  wz = 0;
}

-- LD A, 0x85; OUT (0x10), A in the last bank, which shows RAM.
abbrev pub cpu : Cpu (Asic ℕ ℕ)
cpu = record {
  registers = zero_registers;
  iff1 = false;
  iff2 = false;
  int_mode = 0;
  iff_wait = false;
  halted = false;
  bus = 0;
  prefix = 0;
  memory = record fresh_asic {
    mapping = record (fresh_asic.mapping) {
      mmu = record (fresh_asic.mapping.mmu) {
        ram = λ j. get_or (0x3e ∷ 0x85 ∷ 0xd3 ∷ 0x10 ∷ []) j 0;
      };
    };
  };
}

unfoldable pub hardware_code : Unit {0}
unfolding cpu_code rounds asic_board asic_read_byte asic_write_byte read_port write_port asic_init
    ti_read_byte ti_write_byte bank_of mapped chip_reset ti_mmu_init ram_pages_of flash_pages_of
    init_mapping_ports reload_mapping check_page mapped_1 mapped_2 mapped_3 init_interrupts
    setup_lcd_display bw_lcd_reset bw_lcd_status_write plug_devices mirrored write_device
hardware_code = tt

run :
    cpu_execute (asic_board hundredths counting) 4 18 0 cpu
    ≡ some (0, rounds (asic_board hundredths counting) 2 cpu)
unfolding hardware_code
run = refl

row : (rounds (asic_board hundredths counting) 2 cpu).memory.lcd.x ≡ 5
unfolding hardware_code
row = refl

pub cpu-RegistersFit : RegistersFit zero_registers
cpu-RegistersFit = record {
  a = omega arith;
  f = omega arith;
  b = omega arith;
  c = omega arith;
  d = omega arith;
  e = omega arith;
  h = omega arith;
  l = omega arith;
  af' = omega arith;
  bc' = omega arith;
  de' = omega arith;
  hl' = omega arith;
  pc = omega arith;
  sp = omega arith;
  ixh = omega arith;
  ixl = omega arith;
  iyh = omega arith;
  iyl = omega arith;
  i = omega arith;
  r = omega arith;
  wz = omega arith;
}

pub cpu-HardwareFits : HardwareFits cpu.memory
unfolding PagesWithin PageAtMost
cpu-HardwareFits =
    let h = asic_init-HardwareFits hundredths counting ti84p (λ _. 0) 0 0 in
    record { lcd = h.lcd; link = h.link; pages = h.pages }

unmarked : (rounds (asic_board hundredths counting) 2 cpu).memory.stuck ≡ false
unfolding hardware_code
unmarked = refl

cpu_execute_inside_example :
    (cpu.memory.stuck ≡ false)
    × RegistersFit (rounds (asic_board hundredths counting) 2 cpu).registers
    × HardwareFits (rounds (asic_board hundredths counting) 2 cpu).memory
cpu_execute_inside_example =
    cpu_execute_inside hundredths counting 4 18 0 cpu cpu-RegistersFit cpu-HardwareFits 0
      (rounds (asic_board hundredths counting) 2 cpu) run unmarked
