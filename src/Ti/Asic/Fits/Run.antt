-- ===== src/Ti/Asic/Fits/Run.antt =====
-- Whatever program runs, the hardware stays within its bounds.
use z80e.Common.{ap, ℕ, ◌≡◌, refl, arith, none, some, Option-cases, inl, inr, Bool-cases}
use z80e.Core.Cpu.{Cpu}
use z80e.Core.Cpu.Execute.{cpu_execute}
use z80e.Core.Cpu.Execute.Rounds.{cpu_execute-IsKept}
use z80e.Core.Cpu.Invariant.{IsKept}
use z80e.Core.Cpu.Invariant.Pure.{RegistersFit}
use z80e.Ti.Memory.{DeviceType}
use z80e.Ti.Memory.Flash.{ti_read_byte, ti_write_byte}
use z80e.Ti.Mapping.{init_mapping_ports}
use z80e.Ti.Mapping.Laws.{PageAtMost}
use z80e.Ti.Lcd.{setup_lcd_display, bw_lcd_reset}
use z80e.Ti.Timers.{Doubles}
use z80e.Ti.Asic.{Asic, AsicHooks}
use z80e.Ti.Asic.Ports.{mirrored}
use z80e.Ti.Asic.Machine.{
  with_hook, asic_board, asic_read_byte, asic_write_byte, read_port, write_port, asic_init,
}
use z80e.Ti.Asic.Pages.{
  PagesWithin, OnSome, reload_mapping-PagesWithin, ti_read_byte-PagesWithin,
  ti_write_byte-PagesWithin,
}
use z80e.Ti.Asic.Fits.{HardwareFits, read_device-HardwareFits}
use z80e.Ti.Asic.Fits.Writes.{write_device-HardwareFits}

pub the_device : {A : Type 0} {a b : A} → some a ≡ some b → (Q : A → Type 0) → Q a → Q b
the_device {A} {a} {b} e Q q =
    let same : a ≡ b = ap {B = A} (λ o. elim o [ none ↦ a | some c ↦ c ]) e in rw same at q

module _ {F H : Type 0} (doubles : Doubles F) (hooks : AsicHooks H) where
  new_hook :
      (asic : Asic F H) (hook : H)
      → HardwareFits asic
      → HardwareFits (with_hook doubles hooks hook asic)
  unfolding PagesWithin PageAtMost
  new_hook asic hook h = record { lcd = h.lcd; link = h.link; pages = h.pages }

  read_byte-HardwareFits :
      (asic : Asic F H) (address : ℕ)
      → HardwareFits asic
      → HardwareFits (asic_read_byte doubles hooks asic address).1
  unfolding asic_read_byte OnSome
  read_byte-HardwareFits asic address h =
      let kept =
        ti_read_byte-PagesWithin hooks.on_memory_read hooks.on_memory_write asic.mapping.mmu address
          h.pages in
      elim (Option-cases
        (ti_read_byte hooks.on_memory_read hooks.on_memory_write asic.mapping.mmu address)) [
          | inl stuck ↦
              rw (stuck, asic_read_byte) (record { lcd = h.lcd; link = h.link; pages = h.pages })
          | inr read ↦
              let (_, e) = read in
              rw (e, asic_read_byte) (record { lcd = h.lcd; link = h.link; pages = rw e at kept })
        ]

  write_byte-HardwareFits :
      (asic : Asic F H) (address value : ℕ)
      → HardwareFits asic
      → HardwareFits (asic_write_byte doubles hooks asic address value)
  unfolding asic_write_byte OnSome
  write_byte-HardwareFits asic address value h =
      let kept =
        ti_write_byte-PagesWithin hooks.on_memory_read hooks.on_memory_write asic.mapping.mmu
          address value h.pages in
      elim (Option-cases
        (ti_write_byte hooks.on_memory_read hooks.on_memory_write asic.mapping.mmu address value)) [
          | inl stuck ↦
              rw (stuck, asic_write_byte) (record { lcd = h.lcd; link = h.link; pages = h.pages })
          | inr written ↦
              let (_, e) = written in
              rw (e, asic_write_byte) (record { lcd = h.lcd; link = h.link; pages = rw e at kept })
        ]

  write_port-HardwareFits :
      (port value : ℕ) (asic : Asic F H)
      → HardwareFits asic
      → HardwareFits (write_port doubles hooks port asic value)
  unfolding write_port
  write_port-HardwareFits port value asic h =
      elim (Bool-cases (mirrored asic.mapping.device port).1) [
        | inl on ↦ rw (on, write_port) (write_device-HardwareFits doubles hooks _ asic value h)
        | inr off ↦ rw (off, write_port) h
      ]

  pub asic-IsKept : IsKept HardwareFits (asic_board doubles hooks)
  unfolding asic_board read_port
  asic-IsKept = record {
    read_byte = λ asic address h. read_byte-HardwareFits asic address h;
    write_byte = λ asic address value h. write_byte-HardwareFits asic address value h;
    port_in = λ port asic e h.
        the_device e (λ run. HardwareFits (run asic).1) (read_device-HardwareFits _ asic h);
    port_out = λ port value asic e h.
        the_device e (λ run. HardwareFits (run asic value))
          (write_port-HardwareFits port value asic h);
    hook_on_port_in = λ asic port value h. new_hook asic _ h;
    hook_on_port_out = λ asic port value h. new_hook asic _ h;
  }

  -- A run of `cpu_execute` that returns keeps the bounds in the model, where an access outside an
  -- array only leaves a mark.
  pub cpu_execute-HardwareFits :
      (fuel cycles debt : ℕ) (cpu : Cpu (Asic F H))
      → RegistersFit cpu.registers
      → HardwareFits cpu.memory
      → (over : ℕ) (cpu' : Cpu (Asic F H))
      → cpu_execute (asic_board doubles hooks) fuel cycles debt cpu ≡ some (over, cpu')
      → RegistersFit cpu'.registers × HardwareFits cpu'.memory
  cpu_execute-HardwareFits fuel cycles debt cpu h q over cpu' e =
      cpu_execute-IsKept (asic_board doubles hooks) asic-IsKept fuel cycles debt cpu h q over cpu' e

  -- The hardware that `asic_init` makes is within these bounds, whatever bytes the allocation of
  -- the display leaves and whatever state the hooks start in.
  pub asic_init-HardwareFits :
      (type : DeviceType) (fresh : ℕ → ℕ) (read_reg : ℕ) (hook : H)
      → HardwareFits (asic_init doubles hooks type fresh read_reg hook)
  unfolding asic_init setup_lcd_display bw_lcd_reset init_mapping_ports
  asic_init-HardwareFits type fresh read_reg hook = record {
    lcd = record {
      x = omega arith;
      y = omega arith;
      z = omega arith;
      contrast = omega arith;
      op_amp1 = omega arith;
      op_amp2 = omega arith;
    };
    link = record { sends = refl; tx_interrupt = refl; rx_interrupt = refl };
    pages = reload_mapping-PagesWithin _;
  }
