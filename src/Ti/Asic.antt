-- ===== src/Ti/Asic.antt =====
-- libz80e/src/ti/asic.c: the hardware as one state, and which device answers which port. With it the
-- small ports of libz80e/src/ti/hardware: status.c, speed.c, flash.c and timers.c.
pub mod Ports
pub mod Machine
pub mod Pages
pub mod Fits
pub mod Stuck
use z80e.Common.{
  ℕ, zero, suc, ◌+◌, ◌*◌, ◌/◌, ◌%◌, ◌^◌, Bool, true, false, not, ◌&&◌, ◌||◌, List, [], ◌∷◌, Option,
  none, some, bit_and, ◌|||◌, ltb, ◌==◌, if◌then◌else◌, switch, to_ℕ, to_bool, replicate, u8,
}
use z80e.Ti.Memory.{DeviceType, ti73, ti83p, ti83p_se, ti84p, ti84p_se, ti84p_cse, Mmu}
use z80e.Ti.Interrupts.{
  Interrupts, read_interrupting_device, write_acknowledged_interrupts, ti_interrupts_interrupt,
}
use z80e.Ti.Keyboard.{Keyboard}
use z80e.Ti.Lcd.{Lcd}
use z80e.Ti.Link.{Link, no_assist}
use z80e.Ti.Mapping.{Mapping, is_ti83p, write_map_mode}
use z80e.Ti.Timers.{
  Doubles, Timer, CrystalTimer, no_timer, rescale_all, set_timer_frequency, first_timer_speed,
  second_timer_speed, speed_of,
}

-- `battery_state`.
pub data Battery : Type 0 where
  batteries_removed : Battery
  batteries_low : Battery
  batteries_good : Battery

-- The functions that the timers call: none, `first_timer_tick` and `second_timer_tick`.
pub data Tick : Type 0 where
  no_tick : Tick
  first_timer_tick : Tick
  second_timer_tick : Tick

-- The hook functions, on the state `H` of the hooks; a memory hook gets it through `mmu->hook`.
pub record AsicHooks (H : Type 0) : Type 0 where
  pub on_memory_read : H → ℕ → ℕ → ℕ × H
  pub on_memory_write : H → ℕ → ℕ → ℕ × H
  pub on_port_in : H → ℕ → ℕ → ℕ × H
  pub on_port_out : H → ℕ → ℕ → ℕ × H
  pub on_lcd_update : Lcd H → H

-- `z80_link_socket_t`: the descriptors, and the calls since the last `accept`.
pub record LinkSockets : Type 0 where
  pub accept : ℕ
  pub listenfd : ℕ
  pub clients : List ℕ

-- `asic_t` without the processor: `mapping` has the device and the memory unit, `interrupts` the
-- pin of the processor. `stuck` is set by an access outside an array, after which nothing is said.
pub record Asic (F H : Type 0) : Type 0 where
  pub mapping : Mapping H
  pub battery : Battery
  pub battery_remove_check : Bool
  pub clock_rate : ℕ
  pub interrupts : Interrupts
  pub first_timer_id : Option ℕ
  pub second_timer_id : Option ℕ
  pub timers : List (Timer F Tick)
  pub keyboard : Keyboard
  pub lcd : Lcd H
  pub link : Link
  pub sockets : LinkSockets
  pub chip_size : ℕ
  pub crystal_1 : CrystalTimer
  pub crystal_2 : CrystalTimer
  pub crystal_3 : CrystalTimer
  pub stuck : Bool

abbrev pub is_good : Battery → Bool
is_good batteries_removed = false
is_good batteries_low = false
is_good batteries_good = true

abbrev pub is_removed : Battery → Bool
is_removed batteries_removed = true
is_removed batteries_low = false
is_removed batteries_good = false

abbrev pub is_ti73 : DeviceType → Bool
is_ti73 ti73 = true
is_ti73 ti83p = false
is_ti73 ti83p_se = false
is_ti73 ti84p = false
is_ti73 ti84p_se = false
is_ti73 ti84p_cse = false

abbrev pub is_ti84p : DeviceType → Bool
is_ti84p ti73 = false
is_ti84p ti83p = false
is_ti84p ti83p_se = false
is_ti84p ti84p = true
is_ti84p ti84p_se = true
is_ti84p ti84p_cse = true

module _ {F H : Type 0} where
  abbrev pub device_of : Asic F H → DeviceType
  device_of asic = asic.mapping.device

  abbrev pub mmu_of : Asic F H → Mmu H
  mmu_of asic = asic.mapping.mmu

  abbrev pub with_mmu : Mmu H → Asic F H → Asic F H
  with_mmu mmu asic = record asic { mapping = record (asic.mapping) { mmu = mmu } }

  -- Port 2.
  unfoldable pub read_status : Asic F H → ℕ
  read_status asic =
      (if (if asic.battery_remove_check
          then not (is_removed asic.battery)
          else is_good asic.battery)
        then 1
        else 0)
      ||| (if not (is_ti73 (device_of asic)) then 2 else 0)
      ||| (if (mmu_of asic).flash_unlocked then 4 else 0)
      ||| (if not (no_assist (device_of asic)) then 0x80 else 0)
      ||| (if not (no_assist (device_of asic)) then 0x40 else 0)
      ||| (if is_ti84p (device_of asic) then 0x20 else 0)

  unfoldable pub write_status : Asic F H → ℕ → Asic F H
  write_status asic value =
      if no_assist (device_of asic)
      then asic
      else record asic { interrupts = write_acknowledged_interrupts asic.interrupts value }

  -- Port 0x20.
  unfoldable pub read_speed : Asic F H → ℕ
  read_speed asic =
      if asic.clock_rate == 6000000 then 0 else (if asic.clock_rate == 15000000 then 1 else 0)

  -- Port 0x14: on the TI-83+ it reads as port 4.
  unfoldable pub read_chip_control : Asic F H → ℕ
  read_chip_control asic =
      if is_ti83p (device_of asic) then read_interrupting_device asic.interrupts else 0

  unfoldable pub write_control_port : Asic F H → ℕ → Asic F H
  write_control_port asic value =
      with_mmu (record (mmu_of asic) { flash_unlocked = to_bool (bit_and value 1) }) asic

  -- Port 0x21.
  unfoldable pub write_size_port : Asic F H → ℕ → Asic F H
  write_size_port asic value = record asic { chip_size = bit_and value 0x33 }

  -- `first_timer_tick` and `second_timer_tick`.
  unfoldable pub timer_tick : Tick → Asic F H → Asic F H
  timer_tick no_tick asic = asic
  timer_tick first_timer_tick asic = record asic {
    interrupts = ti_interrupts_interrupt asic.interrupts 2;
  }
  timer_tick second_timer_tick asic = record asic {
    interrupts = ti_interrupts_interrupt asic.interrupts 4;
  }

  module _ (doubles : Doubles F) where
    unfoldable pub asic_set_clock_rate : Asic F H → ℕ → ℕ × Asic F H
    asic_set_clock_rate asic new_rate = (
      asic.clock_rate,
      record asic {
        timers = rescale_all doubles no_tick new_rate asic.timers;
        clock_rate = new_rate;
      },
    )

    unfoldable pub write_speed : Asic F H → ℕ → Asic F H
    write_speed asic value =
        if value == 0
        then (asic_set_clock_rate asic 6000000).1
        else (if value == 1 then (asic_set_clock_rate asic 15000000).1 else asic)

    unfoldable pub set_first_timer_frequency : Asic F H → F → Asic F H
    set_first_timer_frequency asic speed =
        elim (set_timer_frequency doubles no_tick asic.clock_rate first_timer_tick
          asic.first_timer_id speed asic.timers) [
            | none ↦ record asic { stuck = true }
            | some set ↦ record asic { first_timer_id = set.0; timers = set.1 }
          ]

    unfoldable pub set_second_timer_frequency : Asic F H → F → Asic F H
    set_second_timer_frequency asic speed =
        elim (set_timer_frequency doubles no_tick asic.clock_rate second_timer_tick
          asic.second_timer_id speed asic.timers) [
            | none ↦ record asic { stuck = true }
            | some set ↦ record asic { second_timer_id = set.0; timers = set.1 }
          ]

    unfoldable pub write_timer_speed : Asic F H → ℕ → Asic F H
    write_timer_speed asic value =
        let other = not (is_ti83p (device_of asic)) in
        set_second_timer_frequency
          (set_first_timer_frequency asic
            (first_timer_speed doubles no_tick other (speed_of value)))
          (second_timer_speed doubles no_tick other (speed_of value))

    -- Port 4.
    unfoldable pub write_device_status_port : Asic F H → ℕ → Asic F H
    write_device_status_port asic value =
        write_timer_speed (record asic { mapping = write_map_mode asic.mapping value }) value
