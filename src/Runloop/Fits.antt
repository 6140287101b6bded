-- ===== src/Runloop/Fits.antt =====
-- The run loop keeps the hardware within its bounds.
use z80e.Common.{ℕ, ◌≡◌, refl, arith, true, false, Bool-cases, inl, inr, List, Option, none, some}
use z80e.Core.Cpu.{Cpu}
use z80e.Core.Cpu.Invariant.Pure.{RegistersFit}
use z80e.Runloop.{TimerTick}
use z80e.Runloop.Sockets.{SocketEvents, receive}
use z80e.Runloop.Slice.{runloop_tick_cycles}
use z80e.Runloop.Keeps.{CpuKeeps, LoopKeeps, share-CpuKeeps}
use z80e.Ti.Link.Protocol.{Step-HandshakesAgree, recv, send}
use z80e.Ti.Timers.{Doubles}
use z80e.Ti.Asic.{Asic, AsicHooks, Tick, no_tick, first_timer_tick, second_timer_tick, timer_tick}
use z80e.Ti.Asic.Pages.{OnSome}
use z80e.Ti.Asic.Fits.{HardwareFits}
use z80e.Ti.Asic.Fits.Run.{asic-IsKept}
use z80e.Ti.Asic.Stuck.{IsStuck, IsStuck-IsKept}

timer_tick-HardwareFits :
    {F H : Type 0} (tick : Tick) (asic : Asic F H)
    → HardwareFits asic
    → HardwareFits (timer_tick tick asic)
unfolding timer_tick
timer_tick-HardwareFits no_tick asic h = h
timer_tick-HardwareFits first_timer_tick asic h = record {
  lcd = h.lcd;
  link = h.link;
  pages = h.pages;
}
timer_tick-HardwareFits second_timer_tick asic h = record {
  lcd = h.lcd;
  link = h.link;
  pages = h.pages;
}

receive-HardwareFits :
    {F H : Type 0} (c : Option ℕ) (asic : Asic F H)
    → HardwareFits asic
    → HardwareFits (receive c asic)
unfolding receive
receive-HardwareFits none asic h = h
receive-HardwareFits (some val) asic h = record {
  lcd = h.lcd;
  link =
      Step-HandshakesAgree {device = asic.mapping.device} (recv asic.link asic.interrupts.pin _)
        h.link;
  pages = h.pages;
}

HardwareFits-LoopKeeps : {F H : Type 0} → LoopKeeps {F = F} {H = H} HardwareFits
HardwareFits-LoopKeeps = record {
  received = receive-HardwareFits;
  sockets = λ asic sockets h. record { lcd = h.lcd; link = h.link; pages = h.pages };
  sent = λ asic h. record {
    lcd = h.lcd;
    link =
        Step-HandshakesAgree {device = asic.mapping.device} (send asic.link asic.interrupts.pin)
          h.link;
    pages = h.pages;
  };
  tick = timer_tick-HardwareFits;
  timers = λ asic timers h. record { lcd = h.lcd; link = h.link; pages = h.pages };
}

receive-IsStuck :
    {F H : Type 0} (c : Option ℕ) (asic : Asic F H) → IsStuck asic → IsStuck (receive c asic)
unfolding receive IsStuck
receive-IsStuck none asic h = h
receive-IsStuck (some val) asic h = h

timer_tick-IsStuck :
    {F H : Type 0} (tick : Tick) (asic : Asic F H) → IsStuck asic → IsStuck (timer_tick tick asic)
unfolding timer_tick IsStuck
timer_tick-IsStuck no_tick asic h = h
timer_tick-IsStuck first_timer_tick asic h = h
timer_tick-IsStuck second_timer_tick asic h = h

IsStuck-LoopKeeps : {F H : Type 0} → LoopKeeps {F = F} {H = H} IsStuck
unfolding IsStuck
IsStuck-LoopKeeps = record {
  received = receive-IsStuck;
  sockets = λ asic sockets h. refl;
  sent = λ asic h. h;
  tick = timer_tick-IsStuck;
  timers = λ asic timers h. h;
}

module _ {F H : Type 0} (doubles : Doubles F) (hooks : AsicHooks H) (events : ℕ → SocketEvents)
    (sort : List TimerTick → List TimerTick) where
  pub runloop_tick_cycles_inside :
      (turns fuel : ℕ) (stale : List TimerTick) (cycles : ℕ) (cpu : Cpu (Asic F H))
      → RegistersFit cpu.registers
      → HardwareFits cpu.memory
      → (excess : ℕ) (cpu' : Cpu (Asic F H))
      → runloop_tick_cycles doubles hooks events sort turns fuel stale cycles cpu
        ≡ some (excess, cpu')
      → cpu'.memory.stuck ≡ false
      → (cpu.memory.stuck ≡ false) × RegistersFit cpu'.registers × HardwareFits cpu'.memory
  unfolding OnSome IsStuck
  runloop_tick_cycles_inside turns fuel stale cycles cpu r h excess cpu' e inside =
      let fits : CpuKeeps HardwareFits cpu' = rw e at (
        share-CpuKeeps doubles hooks events sort (asic-IsKept doubles hooks) HardwareFits-LoopKeeps
          turns fuel stale cycles cpu (record { registers = r; hardware = h })) in
      elim (Bool-cases cpu.memory.stuck) [
        | inr before ↦ (before, fits.registers, fits.hardware)
        | inl stuck ↦
            let kept : CpuKeeps IsStuck cpu' = rw e at (
              share-CpuKeeps doubles hooks events sort {Q = IsStuck} (IsStuck-IsKept doubles hooks)
                IsStuck-LoopKeeps turns fuel stale cycles cpu
                (record { registers = r; hardware = stuck })) in
            let after : cpu'.memory.stuck ≡ true = kept.hardware in absurd (ground arith)
      ]
