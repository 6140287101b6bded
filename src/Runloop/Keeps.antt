-- ===== src/Runloop/Keeps.antt =====
-- What the run loop keeps of the hardware: a property that the processor, the sockets and the ticks
-- keep.
use z80e.Core.Cpu.Execute.Rounds.{cpu_execute-IsKept}
use z80e.Core.Cpu.Invariant.{IsKept}
use z80e.Runloop.Sockets.{
  ClientEvent, receive, seated, serve_client, update_clients, link_socket_update,
}
use z80e.Ti.Link.{link_read_tx_buffer, link_recv_ready}
use z80e.Ti.Timers.{Timer}
use z80e.Ti.Asic.{LinkSockets}
use z80e.Ti.Asic.Ports.{with_pin}
use z80e.Common.{
  ℕ, ◌&&◌, ◌==◌, [], ◌∷◌, zero, suc, ◌+◌, ◌-◌, Bool, true, false, List, Option, ltb, leb,
  if◌then◌else◌, get_or, Bool-cases, Option-cases, inl, inr,
}
use z80e.Core.Cpu.{Cpu}
use z80e.Core.Cpu.Execute.{cpu_execute}
use z80e.Core.Cpu.Invariant.Pure.{RegistersFit}
use z80e.Runloop.{TimerTick, collect_ticks}
use z80e.Runloop.Slice.{
  with_asic, update_link, tick_at, no_tick_entry, run_slice, runloop_tick_cycles,
}
use z80e.Ti.Timers.{Doubles}
use z80e.Runloop.Sockets.{SocketEvents}
use z80e.Ti.Asic.{Asic, AsicHooks, Tick, no_tick, timer_tick}
use z80e.Ti.Asic.Machine.{asic_board}
use z80e.Ti.Asic.Pages.{OnSome}

-- The registers within their widths, and a property of the hardware.
pub record CpuKeeps {F H : Type 0} (Q : Asic F H → Type 0) (cpu : Cpu (Asic F H)) : Type 0 where
  pub registers : RegistersFit cpu.registers
  pub hardware : Q cpu.memory

OnSome-if :
    {A : Type 0} (Q : A → Type 0) (t : Bool) (a b : Option A)
    → OnSome Q a
    → OnSome Q b
    → OnSome Q (if t then a else b)
OnSome-if Q true a b p q = p
OnSome-if Q false a b p q = q

-- What the parts of the loop besides the processor keep.
pub record LoopKeeps {F H : Type 0} (Q : Asic F H → Type 0) : Type 0 where
  pub received : (c : Option ℕ) (asic : Asic F H) → Q asic → Q (receive c asic)
  pub sockets :
      (asic : Asic F H) (sockets : LinkSockets)
      → Q asic
      → Q (record asic { sockets = sockets; stuck = true })
  pub sent :
      (asic : Asic F H)
      → Q asic
      → Q (record asic {
        link = (link_read_tx_buffer asic.link asic.interrupts.pin).1;
        interrupts = with_pin (link_read_tx_buffer asic.link asic.interrupts.pin).2 asic.interrupts;
      })
  pub tick : (tick : Tick) (asic : Asic F H) → Q asic → Q (timer_tick tick asic)
  pub timers :
      (asic : Asic F H) (timers : List (Timer F Tick))
      → Q asic
      → Q (record asic { timers = timers })

module _ {F H : Type 0} {Q : Asic F H → Type 0} (keeps : LoopKeeps Q) where
  serve_client-keeps :
      (event : ClientEvent) (fd : ℕ) (asic : Asic F H) → Q asic → Q (serve_client event fd asic).1
  unfolding serve_client
  serve_client-keeps event fd asic h = elim (Bool-cases (fd == 0)) [
    | inl free ↦ rw free h
    | inr taken ↦ elim (Bool-cases event.hung_up) [
      | inl gone ↦ rw (taken, gone) h
      | inr there ↦ elim (Bool-cases (event.readable && link_recv_ready asic.link)) [
        | inl reads ↦ rw (taken, there, reads) (keeps.received event.received asic h)
        | inr waits ↦ rw (taken, there, waits) h
      ]
    ]
  ]

  update_clients-keeps :
      (event : ℕ → ClientEvent) (i : ℕ) (fd : Option ℕ) (clients : List ℕ) (asic : Asic F H)
      → Q asic
      → Q (update_clients event i fd clients asic).1
  unfolding update_clients
  update_clients-keeps event i fd [] asic h = h
  update_clients-keeps event i fd (client ∷ clients) asic h =
      update_clients-keeps event (i + 1) _ clients _
        (serve_client-keeps (event i) (seated fd client) asic h)

  link_socket_update-keeps :
      (events : SocketEvents) (c : Option ℕ) (asic : Asic F H)
      → Q asic
      → Q (link_socket_update events c asic)
  unfolding link_socket_update
  link_socket_update-keeps events c asic h = elim (Bool-cases (asic.sockets.listenfd == 0)) [
    | inl closed ↦ rw closed h
    | inr listens ↦ rw listens (keeps.sockets _ _ (update_clients-keeps events.client 0 _ _ asic h))
  ]

module _ {F H : Type 0} (doubles : Doubles F) (hooks : AsicHooks H) (events : ℕ → SocketEvents)
    (sort : List TimerTick → List TimerTick) {Q : Asic F H → Type 0}
    (safe : IsKept Q (asic_board doubles hooks)) (keeps : LoopKeeps Q) where
  linked :
      (turn : ℕ) (cpu : Cpu (Asic F H))
      → CpuKeeps Q cpu
      → CpuKeeps Q
          (with_asic doubles hooks events sort (update_link doubles hooks events sort turn) cpu)
  unfolding update_link
  linked turn cpu h = record {
    registers = h.registers;
    hardware = link_socket_update-keeps keeps _ _ _ (keeps.sent cpu.memory h.hardware);
  }

  ticked :
      (index : ℕ) (cpu : Cpu (Asic F H))
      → CpuKeeps Q cpu
      → CpuKeeps Q
          (with_asic doubles hooks events sort (tick_at doubles hooks events sort index) cpu)
  unfolding tick_at
  ticked index cpu h = record {
    registers = h.registers;
    hardware = keeps.tick _ cpu.memory h.hardware;
  }

  run_slice-CpuKeeps :
      (turns fuel : ℕ) (ticks : List TimerTick)
      (current_tick tick_i total_cycles cycles excess ahead behind : ℕ) (cpu : Cpu (Asic F H))
      → CpuKeeps Q cpu
      → OnSome
          (λ (r : ℕ × Cpu (Asic F H)). CpuKeeps Q r.1)
          (run_slice doubles hooks events sort turns fuel ticks current_tick tick_i total_cycles
            cycles excess ahead behind cpu)
  unfolding run_slice OnSome
  run_slice-CpuKeeps zero fuel ticks current_tick tick_i total_cycles cycles excess ahead behind cpu
        h =
      tt
  run_slice-CpuKeeps (suc turns) fuel ticks current_tick tick_i total_cycles cycles excess ahead
        behind cpu h =
      elim (Bool-cases (ltb 0 cycles)) [
        | inr done ↦ rw done h
        | inl on ↦
            elim (Option-cases (cpu_execute (asic_board doubles hooks) fuel ahead behind cpu)) [
              | inl spent ↦ rw (on, spent) tt
              | inr run ↦
                  let (executed, e) = run in
                  let (r, q) =
                    cpu_execute-IsKept (asic_board doubles hooks) safe fuel ahead behind cpu
                      h.registers h.hardware executed.0 executed.1 e in
                  let fits : CpuKeeps Q (
                      with_asic doubles hooks events sort
                        (update_link doubles hooks events sort turns) executed.1) =
                    linked turns executed.1 (record { registers = r; hardware = q }) in
                  let cpu' =
                    with_asic doubles hooks events sort
                      (update_link doubles hooks events sort turns) executed.1 in
                  let ran = ahead + executed.0 - behind in
                  let total = total_cycles + ran in
                  let next = get_or ticks (tick_i + 1) (no_tick_entry doubles hooks events sort) in
                  let due = get_or ticks tick_i (no_tick_entry doubles hooks events sort) in
                  let R = λ (r : ℕ × Cpu (Asic F H)). CpuKeeps Q r.1 in
                  let rest = run_slice-CpuKeeps turns fuel ticks current_tick in
                  rw (on, e)
                    (OnSome-if R (leb due.after_cycle total) _ _
                      (OnSome-if R (leb (tick_i + 1) current_tick) _ _
                        (rest (tick_i + 1) total (cycles - ran) (ran - cycles)
                          (next.after_cycle - total) (total - next.after_cycle) _
                          (ticked due.index cpu' fits))
                        (rest (tick_i + 1) total (cycles - ran) (ran - cycles) (cycles - ran)
                          (ran - cycles) cpu' fits))
                      (rest tick_i total (cycles - ran) (ran - cycles) ahead behind cpu' fits))
            ]
      ]

  pub share-CpuKeeps :
      (turns fuel : ℕ) (stale : List TimerTick) (cycles : ℕ) (cpu : Cpu (Asic F H))
      → CpuKeeps Q cpu
      → OnSome
          (λ (r : ℕ × Cpu (Asic F H)). CpuKeeps Q r.1)
          (runloop_tick_cycles doubles hooks events sort turns fuel stale cycles cpu)
  unfolding runloop_tick_cycles OnSome
  share-CpuKeeps turns fuel stale cycles cpu h =
      elim (Option-cases
        (collect_ticks doubles no_tick fuel cpu.memory.clock_rate cycles 0 cpu.memory.timers)) [
          | inl spent ↦ rw (spent, OnSome, runloop_tick_cycles) tt
          | inr found ↦
              let (collected, c) = found in
              rw (c, OnSome, runloop_tick_cycles)
                (run_slice-CpuKeeps turns fuel _ _ 0 0 cycles 0 _ 0 _ (record {
                  registers = h.registers;
                  hardware = keeps.timers cpu.memory collected.1 h.hardware;
                }))
        ]
