-- ===== src/Ti/Asic/Ports.antt =====
-- `plug_devices` and `asic_mirror_ports`: which device answers a port, and what it does.
use z80e.Common.{
  ℕ, ◌-◌, ◌/◌, ◌%◌, Bool, true, false, not, ◌&&◌, List, [], ◌∷◌, ltb, leb, ◌==◌, if◌then◌else◌,
  switch,
}
use z80e.Ti.Memory.{DeviceType}
use z80e.Ti.Interrupts.{
  Interrupts, read_interrupt_mask, write_interrupt_mask, read_interrupting_device,
}
use z80e.Ti.Keyboard.{read_keyboard, write_keyboard}
use z80e.Ti.Lcd.{Lcd, bw_lcd_status_read, bw_lcd_status_write, bw_lcd_data_read, bw_lcd_data_write}
use z80e.Ti.Link.{
  no_assist, read_link_port, write_link_port, read_link_assist_enable_port,
  write_link_assist_enable_port, read_link_assist_rx_port, read_link_assist_status_port,
  write_link_assist_tx_port,
}
use z80e.Ti.Mapping.{
  is_ti83p, read_ram_paging_port, write_ram_paging_port, read_bank_a_paging_port,
  write_bank_a_paging_port, read_bank_b_paging_port, write_bank_b_paging_port,
}
use z80e.Ti.Timers.{Doubles, CrystalTimer, read_timer_port, write_timer_port}
use z80e.Ti.Asic.{
  Asic, AsicHooks, device_of, mmu_of, with_mmu, read_status, write_status, read_speed, write_speed,
  read_chip_control, write_control_port, write_size_port, write_device_status_port,
}

-- The devices, by their functions.
pub data PortDevice : Type 0 where
  unimplemented : PortDevice
  link_port : PortDevice
  keyboard : PortDevice
  status : PortDevice
  interrupt_mask : PortDevice
  device_status : PortDevice
  ram_paging : PortDevice
  bank_a_paging : PortDevice
  bank_b_paging : PortDevice
  link_enable : PortDevice
  link_status : PortDevice
  link_rx : PortDevice
  link_tx : PortDevice
  lcd_status : PortDevice
  lcd_data : PortDevice
  chip_control : PortDevice
  speed : PortDevice
  chip_size : PortDevice
  crystal : ℕ → ℕ → PortDevice

-- The devices at ports 0 to 15.
abbrev pub low_ports : DeviceType → List PortDevice
low_ports device =
    link_port
    ∷ keyboard
    ∷ status
    ∷ interrupt_mask
    ∷ device_status
    ∷ (if is_ti83p device then unimplemented else ram_paging)
    ∷ bank_a_paging
    ∷ bank_b_paging
    ∷ link_enable
    ∷ link_status
    ∷ link_rx
    ∷ unimplemented
    ∷ unimplemented
    ∷ link_tx
    ∷ []

-- `plug_devices`: the speed and the crystal timers are not in the TI-73 and the TI-83+.
unfoldable pub plug_devices : DeviceType → ℕ → PortDevice
plug_devices device port =
    if ltb port 0x10
    then switch port unimplemented (low_ports device)
    else (if port == 0x10
        then lcd_status
        else if port == 0x11
        then lcd_data
        else if port == 0x14
        then chip_control
        else if port == 0x21
        then chip_size
        else if not (no_assist device) && port == 0x20
        then speed
        else if not (no_assist device) && (leb 0x30 port && leb port 0x38)
        then crystal ((port - 0x30) / 3) ((port - 0x30) % 3)
        else unimplemented)

-- `asic_mirror_ports`: the device, and whether writes still reach it.
unfoldable pub mirrored : DeviceType → ℕ → PortDevice × Bool
mirrored device port =
    if is_ti83p device
    then (if leb 0x08 port && ltb port 0x10
        then (plug_devices device (port % 8), false)
        else if port == 0x12
        then (plug_devices device 0x10, true)
        else if port == 0x13
        then (plug_devices device 0x11, true)
        else if port == 0x15
        then (plug_devices device 0x05, false)
        else if leb 0x17 port
        then (plug_devices device (port % 8), false)
        else (plug_devices device port, true))
    else (if leb 0x60 port && ltb port 0x80
        then (plug_devices device (port - 0x20), true)
        else (plug_devices device port, true))

abbrev pub with_pin : Bool → Interrupts → Interrupts
with_pin pin t = record t { pin = pin }

module _ {F H : Type 0} where
  -- The state of the hooks is shared: the display sees the one of the memory unit.
  abbrev pub lcd_of : Asic F H → Lcd H
  lcd_of asic = record (asic.lcd) { hook = (mmu_of asic).hook }

  abbrev pub with_lcd : Lcd H → Asic F H → Asic F H
  with_lcd lcd asic =
      with_mmu (record (mmu_of asic) { hook = lcd.hook }) (record asic { lcd = lcd })

  abbrev pub crystal_of : ℕ → Asic F H → CrystalTimer
  crystal_of i asic =
      switch i asic.crystal_1 (asic.crystal_1 ∷ asic.crystal_2 ∷ asic.crystal_3 ∷ [])

  -- The `read_in` of a device.
  unfoldable pub read_device : PortDevice → Asic F H → ℕ × Asic F H
  read_device unimplemented asic = (0, asic)
  read_device link_port asic = (read_link_port asic.link, asic)
  read_device keyboard asic = (read_keyboard asic.keyboard, asic)
  read_device status asic = (read_status asic, asic)
  read_device interrupt_mask asic = (read_interrupt_mask asic.interrupts, asic)
  read_device device_status asic = (read_interrupting_device asic.interrupts, asic)
  read_device ram_paging asic = (read_ram_paging_port asic.mapping, asic)
  read_device bank_a_paging asic = (read_bank_a_paging_port asic.mapping, asic)
  read_device bank_b_paging asic = (read_bank_b_paging_port asic.mapping, asic)
  read_device link_enable asic = (read_link_assist_enable_port (device_of asic) asic.link, asic)
  read_device link_status asic = (read_link_assist_status_port (device_of asic) asic.link, asic)
  read_device link_rx asic =
      let (val, link, pin) =
        read_link_assist_rx_port (device_of asic) asic.link asic.interrupts.pin in
      (val, record asic { link = link; interrupts = with_pin pin asic.interrupts })
  read_device link_tx asic = (0, asic)
  read_device lcd_status asic = (bw_lcd_status_read asic.lcd, asic)
  read_device lcd_data asic =
      let (val, lcd) = bw_lcd_data_read (lcd_of asic) in (val, with_lcd lcd asic)
  read_device chip_control asic = (read_chip_control asic, asic)
  read_device speed asic = (read_speed asic, asic)
  read_device chip_size asic = (asic.chip_size, asic)
  read_device (crystal i field) asic = (read_timer_port field (crystal_of i asic), asic)

  module _ (doubles : Doubles F) (hooks : AsicHooks H) where
    -- The `write_out` of a device.
    unfoldable pub write_device : PortDevice → Asic F H → ℕ → Asic F H
    write_device unimplemented asic value = asic
    write_device link_port asic value = record asic { link = write_link_port asic.link value }
    write_device keyboard asic value = record asic { keyboard = write_keyboard asic.keyboard value }
    write_device status asic value = write_status asic value
    write_device interrupt_mask asic value = record asic {
      interrupts = write_interrupt_mask asic.interrupts value;
    }
    write_device device_status asic value = write_device_status_port doubles asic value
    write_device ram_paging asic value = record asic {
      mapping = write_ram_paging_port asic.mapping value;
    }
    write_device bank_a_paging asic value = record asic {
      mapping = write_bank_a_paging_port asic.mapping value;
    }
    write_device bank_b_paging asic value = record asic {
      mapping = write_bank_b_paging_port asic.mapping value;
    }
    write_device link_enable asic value =
        let (link, pin) =
          write_link_assist_enable_port (device_of asic) asic.link asic.interrupts.pin value in
        record asic { link = link; interrupts = with_pin pin asic.interrupts }
    write_device link_status asic value = asic
    write_device link_rx asic value = asic
    write_device link_tx asic value = record asic {
      link = write_link_assist_tx_port asic.link value;
    }
    write_device lcd_status asic value =
        with_lcd (bw_lcd_status_write hooks.on_lcd_update (lcd_of asic) value) asic
    write_device lcd_data asic value =
        with_lcd (bw_lcd_data_write hooks.on_lcd_update (lcd_of asic) value) asic
    write_device chip_control asic value = write_control_port asic value
    write_device speed asic value = write_speed doubles asic value
    write_device chip_size asic value = write_size_port asic value
    write_device (crystal i field) asic value =
        let timer = write_timer_port field (crystal_of i asic) value in
        switch i asic (
          record asic { crystal_1 = timer }
          ∷ record asic { crystal_2 = timer }
          ∷ record asic { crystal_3 = timer }
          ∷ [])
