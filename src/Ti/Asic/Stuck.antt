-- ===== src/Ti/Asic/Stuck.antt =====
-- An access outside an array leaves a mark that nothing takes away.
use z80e.Common.{
  ℕ, ◌≡◌, refl, arith, true, false, some, Option-cases, inl, inr, Bool-cases, ◌==◌, switch,
  switch-All, all_nil, all_cons, [], ◌∷◌,
}
use z80e.Core.Cpu.{Cpu}
use z80e.Core.Cpu.Execute.{cpu_execute}
use z80e.Core.Cpu.Execute.Rounds.{cpu_execute-IsKept}
use z80e.Core.Cpu.Invariant.{IsKept}
use z80e.Core.Cpu.Invariant.Pure.{RegistersFit}
use z80e.Ti.Memory.Flash.{ti_read_byte, ti_write_byte}
use z80e.Ti.Link.{no_assist}
use z80e.Ti.Timers.{Doubles, CrystalTimer, set_timer_frequency}
use z80e.Ti.Asic.{
  Asic, AsicHooks, no_tick, first_timer_tick, second_timer_tick, write_device_status_port,
  write_timer_speed, set_first_timer_frequency, set_second_timer_frequency, write_speed,
  write_status, write_control_port, write_size_port, asic_set_clock_rate,
}
use z80e.Ti.Asic.Ports.{PortDevice, read_device, write_device, mirrored}
use z80e.Ti.Asic.Ports
use z80e.Ti.Asic.Machine.{asic_board, asic_read_byte, asic_write_byte, read_port, write_port}
use z80e.Ti.Asic.Fits.{HardwareFits}
use z80e.Ti.Asic.Fits.Run.{the_device, cpu_execute-HardwareFits}

unfoldable pub IsStuck : {F H : Type 0} → Asic F H → Type 0
IsStuck asic = asic.stuck ≡ true

module _ {F H : Type 0} (doubles : Doubles F) where
  set_first-IsStuck :
      (asic : Asic F H) (speed : F)
      → IsStuck asic
      → IsStuck (set_first_timer_frequency doubles asic speed)
  unfolding IsStuck set_first_timer_frequency
  set_first-IsStuck asic speed h =
      elim (Option-cases (
        set_timer_frequency doubles no_tick asic.clock_rate first_timer_tick asic.first_timer_id
          speed asic.timers)) [
            | inl full ↦ rw (full, set_first_timer_frequency) refl
            | inr set ↦ let (_, e) = set in rw (e, set_first_timer_frequency) h
          ]

  set_second-IsStuck :
      (asic : Asic F H) (speed : F)
      → IsStuck asic
      → IsStuck (set_second_timer_frequency doubles asic speed)
  unfolding IsStuck set_second_timer_frequency
  set_second-IsStuck asic speed h =
      elim (Option-cases (
        set_timer_frequency doubles no_tick asic.clock_rate second_timer_tick asic.second_timer_id
          speed asic.timers)) [
            | inl full ↦ rw (full, set_second_timer_frequency) refl
            | inr set ↦ let (_, e) = set in rw (e, set_second_timer_frequency) h
          ]

  write_device_status-IsStuck :
      (asic : Asic F H) (value : ℕ)
      → IsStuck asic
      → IsStuck (write_device_status_port doubles asic value)
  unfolding IsStuck write_device_status_port write_timer_speed
  write_device_status-IsStuck asic value h = set_second-IsStuck _ _ (set_first-IsStuck _ _ h)

  write_status-IsStuck :
      (asic : Asic F H) (value : ℕ) → IsStuck asic → IsStuck (write_status asic value)
  unfolding IsStuck write_status
  write_status-IsStuck asic value h = elim (Bool-cases (no_assist (asic.mapping.device))) [
    | inl on ↦ rw on h
    | inr off ↦ rw off h
  ]

  write_speed-IsStuck :
      (asic : Asic F H) (value : ℕ) → IsStuck asic → IsStuck (write_speed doubles asic value)
  unfolding IsStuck write_speed asic_set_clock_rate
  write_speed-IsStuck asic value h = elim (Bool-cases (value == 0)) [
    | inl slow ↦ rw slow h
    | inr other ↦ elim (Bool-cases (value == 1)) [
      | inl fast ↦ rw (other, fast) h
      | inr none_of ↦ rw (other, none_of) h
    ]
  ]

  crystal-IsStuck :
      (i : ℕ) (asic : Asic F H) (timer : CrystalTimer)
      → IsStuck asic
      → IsStuck (
          switch i asic (
            record asic { crystal_1 = timer }
            ∷ record asic { crystal_2 = timer }
            ∷ record asic { crystal_3 = timer }
            ∷ []))
  unfolding IsStuck
  crystal-IsStuck i asic timer h =
      switch-All IsStuck i asic _ h (all_cons h (all_cons h (all_cons h all_nil)))

  module _ (hooks : AsicHooks H) where
    write_device-IsStuck :
        (device : PortDevice) (asic : Asic F H) (value : ℕ)
        → IsStuck asic
        → IsStuck (write_device doubles hooks device asic value)
    unfolding IsStuck write_device write_control_port write_size_port
    write_device-IsStuck Ports.status asic value h = write_status-IsStuck asic value h
    write_device-IsStuck Ports.device_status asic value h = write_device_status-IsStuck asic value h
    write_device-IsStuck Ports.speed asic value h = write_speed-IsStuck asic value h
    write_device-IsStuck (Ports.crystal i field) asic value h = crystal-IsStuck i asic _ h
    write_device-IsStuck _ asic value h = h

    read_device-IsStuck :
        (device : PortDevice) (asic : Asic F H) → IsStuck asic → IsStuck (read_device device asic).1
    unfolding IsStuck read_device
    read_device-IsStuck Ports.link_rx asic h = h
    read_device-IsStuck _ asic h = h

    read_byte-IsStuck :
        (asic : Asic F H) (address : ℕ)
        → IsStuck asic
        → IsStuck (asic_read_byte doubles hooks asic address).1
    unfolding IsStuck asic_read_byte
    read_byte-IsStuck asic address h =
        elim (Option-cases
          (ti_read_byte hooks.on_memory_read hooks.on_memory_write asic.mapping.mmu address)) [
            | inl outside ↦ rw (outside, asic_read_byte) refl
            | inr read ↦ let (_, e) = read in rw (e, asic_read_byte) h
          ]

    write_byte-IsStuck :
        (asic : Asic F H) (address value : ℕ)
        → IsStuck asic
        → IsStuck (asic_write_byte doubles hooks asic address value)
    unfolding IsStuck asic_write_byte
    write_byte-IsStuck asic address value h =
        elim (Option-cases (
          ti_write_byte hooks.on_memory_read hooks.on_memory_write asic.mapping.mmu address
            value)) [
              | inl outside ↦ rw (outside, asic_write_byte) refl
              | inr written ↦ let (_, e) = written in rw (e, asic_write_byte) h
            ]

    write_port-IsStuck :
        (port value : ℕ) (asic : Asic F H)
        → IsStuck asic
        → IsStuck (write_port doubles hooks port asic value)
    unfolding write_port
    write_port-IsStuck port value asic h = elim (Bool-cases (mirrored asic.mapping.device port).1) [
      | inl on ↦ rw (on, write_port) (write_device-IsStuck _ asic value h)
      | inr off ↦ rw (off, write_port) h
    ]

    pub IsStuck-IsKept : IsKept IsStuck (asic_board doubles hooks)
    unfolding IsStuck asic_board read_port
    IsStuck-IsKept = record {
      read_byte = λ asic address h. read_byte-IsStuck asic address h;
      write_byte = λ asic address value h. write_byte-IsStuck asic address value h;
      port_in = λ port asic e h.
          the_device e (λ run. IsStuck (run asic).1) (read_device-IsStuck _ asic h);
      port_out = λ port value asic e h.
          the_device e (λ run. IsStuck (run asic value)) (write_port-IsStuck port value asic h);
      hook_on_port_in = λ asic port value h. h;
      hook_on_port_out = λ asic port value h. h;
    }

    -- Whatever program the memory holds, and whatever the hooks do: when a run of `cpu_execute` on the
    -- hardware returns with no mark of an access outside an array, there was none before it either,
    -- and so none in it; and if the cursor of the display was inside its memory, the handshakes of
    -- the link consistent, every bank on a page number at most the number of pages, and the registers
    -- within their widths, they are so after it.
    pub cpu_execute_inside :
        (fuel cycles debt : ℕ) (cpu : Cpu (Asic F H))
        → RegistersFit cpu.registers
        → HardwareFits cpu.memory
        → (over : ℕ) (cpu' : Cpu (Asic F H))
        → cpu_execute (asic_board doubles hooks) fuel cycles debt cpu ≡ some (over, cpu')
        → cpu'.memory.stuck ≡ false
        → (cpu.memory.stuck ≡ false) × RegistersFit cpu'.registers × HardwareFits cpu'.memory
    unfolding IsStuck
    cpu_execute_inside fuel cycles debt cpu h q over cpu' e inside =
        let kept = cpu_execute-HardwareFits doubles hooks fuel cycles debt cpu h q over cpu' e in
        elim (Bool-cases cpu.memory.stuck) [
          | inr before ↦ (before, kept.0, kept.1)
          | inl stuck ↦
              let after : cpu'.memory.stuck ≡ true =
                (cpu_execute-IsKept {Q = IsStuck} (asic_board doubles hooks) IsStuck-IsKept fuel
                  cycles debt cpu h stuck over cpu' e).1 in
              absurd (ground arith)
        ]
