-- ===== src/Ti/Asic/Fits/Writes.antt =====
-- What a write to a port keeps of the hardware's bounds.
use z80e.Common.{
  ℕ, Option-cases, inl, inr, Bool-cases, ◌==◌, switch, switch-All, all_nil, all_cons, [], ◌∷◌,
}
use z80e.Ti.Mapping.{
  write_map_mode, write_ram_paging_port, write_bank_a_paging_port, write_bank_b_paging_port,
}
use z80e.Ti.Mapping.Laws.{PageAtMost}
use z80e.Ti.Lcd.Cursor.{status_write-CursorFits, data_write-CursorFits}
use z80e.Ti.Link.{no_assist}
use z80e.Ti.Link.Protocol.{Step-HandshakesAgree, write_lines, write_enable, write_tx}
use z80e.Ti.Timers.{Doubles, CrystalTimer, set_timer_frequency}
use z80e.Ti.Asic.{
  Asic, AsicHooks, no_tick, first_timer_tick, second_timer_tick, write_device_status_port,
  write_timer_speed, set_first_timer_frequency, set_second_timer_frequency, write_speed,
  write_status, write_control_port, write_size_port, asic_set_clock_rate,
}
use z80e.Ti.Asic.Ports.{PortDevice, read_device, write_device, mirrored, lcd_of, crystal_of}
use z80e.Ti.Asic.Ports
use z80e.Ti.Asic.Pages.{PagesWithin}
use z80e.Ti.Asic.Fits.{HardwareFits, lcd_of-CursorFits, new_mapping}

module _ {F H : Type 0} where
  set_first-HardwareFits :
      (doubles : Doubles F) (asic : Asic F H) (speed : F)
      → HardwareFits asic
      → HardwareFits (set_first_timer_frequency doubles asic speed)
  unfolding set_first_timer_frequency
  set_first-HardwareFits doubles asic speed h =
      elim (Option-cases (
        set_timer_frequency doubles no_tick asic.clock_rate first_timer_tick asic.first_timer_id
          speed asic.timers)) [
            | inl full ↦
                rw (full, set_first_timer_frequency)
                  (record { lcd = h.lcd; link = h.link; pages = h.pages })
            | inr set ↦
                let (_, e) = set in
                rw (e, set_first_timer_frequency)
                  (record { lcd = h.lcd; link = h.link; pages = h.pages })
          ]

  set_second-HardwareFits :
      (doubles : Doubles F) (asic : Asic F H) (speed : F)
      → HardwareFits asic
      → HardwareFits (set_second_timer_frequency doubles asic speed)
  unfolding set_second_timer_frequency
  set_second-HardwareFits doubles asic speed h =
      elim (Option-cases (
        set_timer_frequency doubles no_tick asic.clock_rate second_timer_tick asic.second_timer_id
          speed asic.timers)) [
            | inl full ↦
                rw (full, set_second_timer_frequency)
                  (record { lcd = h.lcd; link = h.link; pages = h.pages })
            | inr set ↦
                let (_, e) = set in
                rw (e, set_second_timer_frequency)
                  (record { lcd = h.lcd; link = h.link; pages = h.pages })
          ]

  write_device_status-HardwareFits :
      (doubles : Doubles F) (asic : Asic F H) (value : ℕ)
      → HardwareFits asic
      → HardwareFits (write_device_status_port doubles asic value)
  unfolding write_device_status_port write_timer_speed write_map_mode
  write_device_status-HardwareFits doubles asic value h =
      set_second-HardwareFits doubles _ _
        (set_first-HardwareFits doubles _ _ (new_mapping asic _ h))

  write_status-HardwareFits :
      (asic : Asic F H) (value : ℕ) → HardwareFits asic → HardwareFits (write_status asic value)
  unfolding write_status
  write_status-HardwareFits asic value h = elim (Bool-cases (no_assist (asic.mapping.device))) [
    | inl on ↦ rw on h
    | inr off ↦ rw off (record { lcd = h.lcd; link = h.link; pages = h.pages })
  ]

  write_speed-HardwareFits :
      (doubles : Doubles F) (asic : Asic F H) (value : ℕ)
      → HardwareFits asic
      → HardwareFits (write_speed doubles asic value)
  unfolding write_speed asic_set_clock_rate
  write_speed-HardwareFits doubles asic value h = elim (Bool-cases (value == 0)) [
    | inl slow ↦ rw slow (record { lcd = h.lcd; link = h.link; pages = h.pages })
    | inr other ↦ elim (Bool-cases (value == 1)) [
      | inl fast ↦ rw (other, fast) (record { lcd = h.lcd; link = h.link; pages = h.pages })
      | inr none_of ↦ rw (other, none_of) h
    ]
  ]

  crystal-HardwareFits :
      (i : ℕ) (asic : Asic F H) (timer : CrystalTimer)
      → HardwareFits asic
      → HardwareFits (
          switch i asic (
            record asic { crystal_1 = timer }
            ∷ record asic { crystal_2 = timer }
            ∷ record asic { crystal_3 = timer }
            ∷ []))
  crystal-HardwareFits i asic timer h = switch-All HardwareFits i asic _ h (
      all_cons (record { lcd = h.lcd; link = h.link; pages = h.pages })
        (all_cons (record { lcd = h.lcd; link = h.link; pages = h.pages })
          (all_cons (record { lcd = h.lcd; link = h.link; pages = h.pages }) all_nil)))

  pub write_device-HardwareFits :
      (doubles : Doubles F) (hooks : AsicHooks H) (device : PortDevice) (asic : Asic F H)
      (value : ℕ)
      → HardwareFits asic
      → HardwareFits (write_device doubles hooks device asic value)
  unfolding write_device PagesWithin PageAtMost write_control_port write_size_port
      write_ram_paging_port write_bank_a_paging_port write_bank_b_paging_port
  write_device-HardwareFits doubles hooks Ports.link_port asic value h = record {
    lcd = h.lcd;
    link =
        Step-HandshakesAgree {device = asic.mapping.device}
          (write_lines asic.link asic.interrupts.pin value) h.link;
    pages = h.pages;
  }
  write_device-HardwareFits doubles hooks Ports.keyboard asic value h = record {
    lcd = h.lcd;
    link = h.link;
    pages = h.pages;
  }
  write_device-HardwareFits doubles hooks Ports.status asic value h =
      write_status-HardwareFits asic value h
  write_device-HardwareFits doubles hooks Ports.interrupt_mask asic value h = record {
    lcd = h.lcd;
    link = h.link;
    pages = h.pages;
  }
  write_device-HardwareFits doubles hooks Ports.device_status asic value h =
      write_device_status-HardwareFits doubles asic value h
  write_device-HardwareFits doubles hooks Ports.ram_paging asic value h = new_mapping asic _ h
  write_device-HardwareFits doubles hooks Ports.bank_a_paging asic value h = new_mapping asic _ h
  write_device-HardwareFits doubles hooks Ports.bank_b_paging asic value h = new_mapping asic _ h
  write_device-HardwareFits doubles hooks Ports.link_enable asic value h = record {
    lcd = h.lcd;
    link = Step-HandshakesAgree (write_enable asic.link asic.interrupts.pin value) h.link;
    pages = h.pages;
  }
  write_device-HardwareFits doubles hooks Ports.link_tx asic value h = record {
    lcd = h.lcd;
    link =
        Step-HandshakesAgree {device = asic.mapping.device}
          (write_tx asic.link asic.interrupts.pin value) h.link;
    pages = h.pages;
  }
  write_device-HardwareFits doubles hooks Ports.lcd_status asic value h = record {
    lcd =
        status_write-CursorFits hooks.on_lcd_update (lcd_of asic) value
          (lcd_of-CursorFits asic h.lcd);
    link = h.link;
    pages = h.pages;
  }
  write_device-HardwareFits doubles hooks Ports.lcd_data asic value h = record {
    lcd =
        data_write-CursorFits hooks.on_lcd_update (lcd_of asic) value
          (lcd_of-CursorFits asic h.lcd);
    link = h.link;
    pages = h.pages;
  }
  write_device-HardwareFits doubles hooks Ports.chip_control asic value h = record {
    lcd = h.lcd;
    link = h.link;
    pages = h.pages;
  }
  write_device-HardwareFits doubles hooks Ports.speed asic value h =
      write_speed-HardwareFits doubles asic value h
  write_device-HardwareFits doubles hooks Ports.chip_size asic value h = record {
    lcd = h.lcd;
    link = h.link;
    pages = h.pages;
  }
  write_device-HardwareFits doubles hooks (Ports.crystal i field) asic value h =
      crystal-HardwareFits i asic _ h
  write_device-HardwareFits doubles hooks _ asic value h = h
