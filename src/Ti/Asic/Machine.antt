-- ===== src/Ti/Asic/Machine.antt =====
-- The hardware as the processor sees it: what `asic_init` plugs into `z80cpu_t`.
use z80e.Common.{ℕ, true, false, none, some, if◌then◌else◌, replicate}
use z80e.Core.Cpu.{Board}
use z80e.Hooks.{HookInfo, hook_on_memory, hook_on_port, hook_on_lcd_update}
use z80e.Ti.Memory.{DeviceType, ti_mmu_init}
use z80e.Ti.Memory.Flash.{ti_read_byte, ti_write_byte}
use z80e.Ti.Interrupts.{init_interrupts}
use z80e.Ti.Keyboard.{init_keyboard}
use z80e.Ti.Lcd.{Lcd, setup_lcd_display}
use z80e.Ti.Link.{init_link}
use z80e.Ti.Mapping.{init_mapping_ports}
use z80e.Ti.Timers.{Doubles, no_timer}
use z80e.Ti.Asic.{Asic, AsicHooks, batteries_good, no_tick, device_of, mmu_of, with_mmu}
use z80e.Ti.Asic.Ports.{mirrored, read_device, write_device}

-- A callback sees the display with its own state.
abbrev lcd_shown : {H W : Type 0} → W → Lcd H → Lcd W
lcd_shown w lcd = record {
  up = lcd.up;
  counter = lcd.counter;
  word_length = lcd.word_length;
  display_on = lcd.display_on;
  op_amp1 = lcd.op_amp1;
  op_amp2 = lcd.op_amp2;
  x = lcd.x;
  y = lcd.y;
  z = lcd.z;
  contrast = lcd.contrast;
  read_reg = lcd.read_reg;
  ram = lcd.ram;
  hook = w;
}

-- The hooks of `struct hook_info`, on its tables and the state `W` of the callbacks.
unfoldable pub hooks_of : {W : Type 0} → AsicHooks (HookInfo (Lcd W) W × W)
hooks_of = record {
  on_memory_read = λ h address value.
      let (v, w) = hook_on_memory h.0.on_memory_read h.1 address value in (v, (h.0, w));
  on_memory_write = λ h address value.
      let (v, w) = hook_on_memory h.0.on_memory_write h.1 address value in (v, (h.0, w));
  on_port_in =
      λ h port value. let (v, w) = hook_on_port h.0.on_port_in h.1 port value in (v, (h.0, w));
  on_port_out =
      λ h port value. let (v, w) = hook_on_port h.0.on_port_out h.1 port value in (v, (h.0, w));
  on_lcd_update = λ lcd.
      let shown = lcd_shown lcd.hook.1 lcd in
      (lcd.hook.0, hook_on_lcd_update lcd.hook.0.on_lcd_update lcd.hook.1 shown);
}

module _ {F H : Type 0} (doubles : Doubles F) (hooks : AsicHooks H) where
  abbrev pub with_hook : H → Asic F H → Asic F H
  with_hook hook asic = with_mmu (record (mmu_of asic) { hook = hook }) asic

  -- An access outside an array, which in C may change anything, leaves the hardware as it is, and marks
  -- it for good.
  unfoldable pub asic_read_byte : Asic F H → ℕ → ℕ × Asic F H
  asic_read_byte asic address =
      elim (ti_read_byte hooks.on_memory_read hooks.on_memory_write (mmu_of asic) address) [
        | none ↦ (0, record asic { stuck = true })
        | some read ↦ (read.0, with_mmu read.1 asic)
      ]

  unfoldable pub asic_write_byte : Asic F H → ℕ → ℕ → Asic F H
  asic_write_byte asic address value =
      elim (ti_write_byte hooks.on_memory_read hooks.on_memory_write (mmu_of asic) address value) [
        | none ↦ record asic { stuck = true }
        | some mmu ↦ with_mmu mmu asic
      ]

  unfoldable pub read_port : ℕ → Asic F H → ℕ × Asic F H
  read_port port asic = read_device (mirrored (device_of asic) port).0 asic

  unfoldable pub write_port : ℕ → Asic F H → ℕ → Asic F H
  write_port port asic value =
      let (device, writes) = mirrored (device_of asic) port in
      if writes then write_device doubles hooks device asic value else asic

  unfoldable pub asic_board : Board (Asic F H)
  asic_board = record {
    read_byte = asic_read_byte;
    write_byte = asic_write_byte;
    devices =
        λ port. record { read_in = some (read_port port); write_out = some (write_port port) };
    hook_on_port_in = λ asic port value.
        let (v, hook) = hooks.on_port_in (mmu_of asic).hook port value in (v, with_hook hook asic);
    hook_on_port_out = λ asic port value.
        let (v, hook) = hooks.on_port_out (mmu_of asic).hook port value in (v, with_hook hook asic);
    interrupt = λ asic. asic.interrupts.pin;
  }

  -- `asic_init`; `fresh` and `read_reg` are the bytes that `malloc` gives to the display.
  unfoldable pub asic_init : DeviceType → (ℕ → ℕ) → ℕ → H → Asic F H
  asic_init type fresh read_reg hook = record {
    mapping = init_mapping_ports type (ti_mmu_init type hook);
    battery = batteries_good;
    battery_remove_check = false;
    clock_rate = 6000000;
    interrupts = init_interrupts;
    first_timer_id = none;
    second_timer_id = none;
    timers = replicate 20 (no_timer doubles no_tick);
    keyboard = init_keyboard;
    lcd = setup_lcd_display fresh read_reg hook;
    link = init_link;
    sockets = record { accept = 0; listenfd = 0; clients = replicate 10 0 };
    chip_size = 0x33;
    crystal_1 = record { frequency = 0; loop = 0; counter = 0 };
    crystal_2 = record { frequency = 0; loop = 0; counter = 0 };
    crystal_3 = record { frequency = 0; loop = 0; counter = 0 };
    stuck = false;
  }
