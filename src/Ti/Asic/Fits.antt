-- ===== src/Ti/Asic/Fits.antt =====
-- What the hardware keeps: the parts of it that ports and memory change stay within their bounds.
pub mod Writes
pub mod Run
use z80e.Common.{
  ℕ, zero, suc, ◌≡◌, ◌<◌, ◌≤◌, refl, arith, Bool, true, false, not, Option, none, some,
  Option-cases, inl, inr, Bool-cases, if◌then◌else◌, ◌==◌, switch, switch-All, All, all_nil,
  all_cons, [], ◌∷◌,
}
use z80e.Core.Registers.{Registers}
use z80e.Core.Cpu.{Board, Cpu}
use z80e.Core.Cpu.Execute.{cpu_execute}
use z80e.Core.Cpu.Execute.Rounds.{cpu_execute-IsKept}
use z80e.Core.Cpu.Invariant.{IsKept}
use z80e.Core.Cpu.Invariant.Pure.{RegistersFit}
use z80e.Ti.Memory.{DeviceType, Mmu, ti_mmu_init}
use z80e.Ti.Memory.Flash.{ti_read_byte, ti_write_byte}
use z80e.Ti.Mapping.{
  Mapping, reload_mapping, write_map_mode, write_ram_paging_port, write_bank_a_paging_port,
  write_bank_b_paging_port, init_mapping_ports,
}
use z80e.Ti.Mapping.Laws.{PageAtMost}
use z80e.Ti.Lcd.{
  Lcd, bw_lcd_data_read, bw_lcd_data_write, bw_lcd_status_write, setup_lcd_display, bw_lcd_reset,
}
use z80e.Ti.Lcd.Cursor.{
  CursorFits, status_write-CursorFits, data_write-CursorFits, data_read-CursorFits,
}
use z80e.Ti.Link.{Link, no_assist}
use z80e.Ti.Link.Protocol.{
  HandshakesAgree, Step-HandshakesAgree, write_lines, write_enable, read_rx, write_tx,
}
use z80e.Ti.Timers.{Doubles, CrystalTimer, write_timer_port, set_timer_frequency}
use z80e.Ti.Asic.{
  Asic, AsicHooks, Tick, no_tick, first_timer_tick, second_timer_tick, write_device_status_port,
  write_timer_speed, set_first_timer_frequency, set_second_timer_frequency, write_speed,
  write_status, write_control_port, write_size_port, asic_set_clock_rate,
}
use z80e.Ti.Asic.Ports.{PortDevice, read_device, write_device, mirrored, lcd_of, crystal_of}
use z80e.Ti.Asic.Ports
use z80e.Ti.Asic.Machine.{
  asic_board, asic_read_byte, asic_write_byte, read_port, write_port, asic_init,
}
use z80e.Ti.Asic.Pages.{
  PagesWithin, OnSome, reload_mapping-PagesWithin, ti_read_byte-PagesWithin,
  ti_write_byte-PagesWithin,
}

-- The cursor of the display, the handshakes of the link and the pages of the banks.
pub record HardwareFits {F H : Type 0} (asic : Asic F H) : Type 0 where
  pub lcd : CursorFits asic.lcd
  pub link : HandshakesAgree asic.link.status
  pub pages : PagesWithin asic.mapping.mmu

module _ {F H : Type 0} where
  pub lcd_of-CursorFits : (asic : Asic F H) → CursorFits asic.lcd → CursorFits (lcd_of asic)
  lcd_of-CursorFits asic h = record {
    x = h.x;
    y = h.y;
    z = h.z;
    contrast = h.contrast;
    op_amp1 = h.op_amp1;
    op_amp2 = h.op_amp2;
  }

  -- What only changes other fields.
  same_parts :
      {asic asic' : Asic F H}
      → asic'.lcd ≡ asic.lcd
      → asic'.link ≡ asic.link
      → asic'.mapping ≡ asic.mapping
      → HardwareFits asic
      → HardwareFits asic'
  same_parts p q r h = record { lcd = rw p h.lcd; link = rw q h.link; pages = rw r h.pages }

  pub new_mapping :
      (asic : Asic F H) (state : Mapping H)
      → HardwareFits asic
      → HardwareFits (record asic { mapping = reload_mapping state })
  new_mapping asic state h = record {
    lcd = h.lcd;
    link = h.link;
    pages = reload_mapping-PagesWithin state;
  }

  read_device-HardwareFits :
      (device : PortDevice) (asic : Asic F H)
      → HardwareFits asic
      → HardwareFits (read_device device asic).1
  unfolding read_device PagesWithin PageAtMost
  read_device-HardwareFits Ports.link_rx asic h = record {
    lcd = h.lcd;
    link = Step-HandshakesAgree (read_rx asic.link asic.interrupts.pin) h.link;
    pages = h.pages;
  }
  read_device-HardwareFits Ports.lcd_data asic h = record {
    lcd = data_read-CursorFits (lcd_of asic) (lcd_of-CursorFits asic h.lcd);
    link = h.link;
    pages = h.pages;
  }
  read_device-HardwareFits _ asic h = h
