-- ===== src/Runloop/Ends.antt =====
-- The loop of a share of cycles comes to its end.
use z80e.Common.{
  ℕ, zero, suc, ◌+◌, ◌-◌, ◌*◌, ◌≤◌, ◌<◌, ◌≡◌, refl, ap, arith, Bool, true, false, List, ◌||◌, ◌!=◌,
  Option, none, some, ltb, leb, ◌==◌, if◌then◌else◌, get_or, Bool-cases, inl, inr,
}
use z80e.Core.Cpu.{Board, Cpu}
use z80e.Core.Cpu.Execute.{step, cpu_execute}
use z80e.Runloop.{TimerTick}
use z80e.Runloop.Slice.{with_asic, update_link, tick_at, no_tick_entry, run_slice}
use z80e.Ti.Timers.{Doubles, Timer}
use z80e.Runloop.Sockets.{SocketEvents}
use z80e.Ti.Asic.{Asic, AsicHooks, Tick}
use z80e.Ti.Asic.Machine.{asic_board}

-- What is overdrawn before a run of the processor is overdrawn after it.
pub cpu_execute-debt :
    {M : Type 0} (board : Board M) (fuel cycles debt : ℕ) (cpu : Cpu M) (over : ℕ) (cpu' : Cpu M)
    → cpu_execute board fuel cycles debt cpu ≡ some (over, cpu')
    → debt ≤ over
unfolding cpu_execute
cpu_execute-debt board zero cycles debt cpu over cpu' e = absurd (ground arith)
cpu_execute-debt board (suc fuel) cycles debt cpu over cpu' e =
    let used = (step board cpu).0 in
    elim (Bool-cases (ltb 0 cycles || cpu.prefix != 0)) [
      | inl on ↦
          let more =
            cpu_execute-debt board fuel (cycles - used) (debt + (used - cycles)) (step board cpu).1
              over cpu' (rw on at e) in
          omega arith
      | inr off ↦
          let same : debt ≡ over = ap (λ o. elim o [ none ↦ debt | some p ↦ p.0 ]) (rw off at e) in
          omega arith
    ]

-- A set of processors in which `cpu_execute` returns with the fuel at hand, for up to `limit`
-- cycles, and which it, the update of the link and the ticks do not leave.
pub record Runs {F H : Type 0} (doubles : Doubles F) (hooks : AsicHooks H)
    (events : ℕ → SocketEvents) (sort : List TimerTick → List TimerTick) (fuel limit : ℕ)
    (P : Cpu (Asic F H) → Type 0) : Type 0 where
  pub returns :
      (ahead behind : ℕ) (cpu : Cpu (Asic F H))
      → ahead ≤ limit
      → P cpu
      → (over : ℕ) × (cpu' : Cpu (Asic F H)) × (cpu_execute
            (asic_board doubles hooks)
            fuel
            ahead
            behind
            cpu
          ≡ some (over, cpu'))
        × P cpu'
  pub link_kept :
      (turn : ℕ) (cpu : Cpu (Asic F H))
      → P cpu
      → P (with_asic doubles hooks events sort (update_link doubles hooks events sort turn) cpu)
  pub tick_kept :
      (index : ℕ) (cpu : Cpu (Asic F H))
      → P cpu
      → P (with_asic doubles hooks events sort (tick_at doubles hooks events sort index) cpu)
  pub timers_kept :
      (timers : List (Timer F Tick)) (cpu : Cpu (Asic F H))
      → P cpu
      → P (with_asic doubles hooks events sort (λ asic. record asic { timers = timers }) cpu)

module _ {F H : Type 0} (doubles : Doubles F) (hooks : AsicHooks H) (events : ℕ → SocketEvents)
    (sort : List TimerTick → List TimerTick) (fuel limit : ℕ) {P : Cpu (Asic F H) → Type 0}
    (runs : Runs doubles hooks events sort fuel limit P) (ticks : List TimerTick)
    (current_tick : ℕ) where
  abbrev pub place : ℕ → ℕ
  place i = (get_or ticks i (no_tick_entry doubles hooks events sort)).after_cycle

  abbrev Returns : Option (ℕ × Cpu (Asic F H)) → Type 0
  Returns r = (excess : ℕ) × (cpu' : Cpu (Asic F H)) × (r ≡ some (excess, cpu')) × P cpu'

  Returns-if :
      (t : Bool) (a b : Option (ℕ × Cpu (Asic F H)))
      → (t ≡ true → Returns a)
      → (t ≡ false → Returns b)
      → Returns (if t then a else b)
  Returns-if true a b p q = p refl
  Returns-if false a b p q = q refl

  -- Where each entry of the array of ticks, and the share, is at most `limit` cycles: twice as many
  -- turns as cycles, and one for each tick still to come, are enough for the loop to return. It must
  -- start with a tick that is due or with cycles to run.
  pub run_slice_returns :
      (turns tick_i total_cycles cycles excess ahead behind : ℕ) (cpu : Cpu (Asic F H))
      → ((i : ℕ) → place i ≤ limit)
      → cycles ≤ limit
      → ahead ≤ limit
      → (0 < cycles → ahead ≡ 0 → place tick_i ≤ total_cycles)
      → 2 * cycles + (current_tick + 1 - tick_i) + (if ahead == 0 then 1 else 0) < turns
      → P cpu
      → (excess' : ℕ) × (cpu' : Cpu (Asic F H)) × (run_slice doubles hooks events sort turns fuel
            ticks current_tick tick_i total_cycles cycles excess ahead behind cpu
          ≡ some (excess', cpu'))
        × P cpu'
  unfolding run_slice
  run_slice_returns zero tick_i total_cycles cycles excess ahead behind cpu places share near due
        enough h =
      absurd (omega arith)
  run_slice_returns (suc turns) tick_i total_cycles cycles excess ahead behind cpu places share near
        due enough h =
      elim (Bool-cases (ltb 0 cycles)) [
        | inr done ↦ (excess, cpu, rw done refl, h)
        | inl on ↦
            let (over, executed, e, kept) = runs.returns ahead behind cpu near h in
            let more =
              cpu_execute-debt (asic_board doubles hooks) fuel ahead behind cpu over executed e in
            let cpu' =
              with_asic doubles hooks events sort (update_link doubles hooks events sort turns)
                executed in
            let linked : P cpu' = runs.link_kept turns executed kept in
            let ran = ahead + over - behind in
            let total = total_cycles + ran in
            let index = (get_or ticks tick_i (no_tick_entry doubles hooks events sort)).index in
            let progress : ahead ≤ ran = omega arith in
            rw (on, e)
              (Returns-if (leb (place tick_i) total) _ _
                (λ now.
                  Returns-if (leb (tick_i + 1) current_tick) _ _
                    (λ some_left.
                      run_slice_returns turns (tick_i + 1) total (cycles - ran) (ran - cycles)
                        (place (tick_i + 1) - total) (total - place (tick_i + 1)) _ places
                        (omega arith) (omega (arith, places (tick_i + 1))) (λ o z. omega arith)
                        (ground arith) (runs.tick_kept index cpu' linked))
                    (λ all_done.
                      run_slice_returns turns (tick_i + 1) total (cycles - ran) (ran - cycles)
                        (cycles - ran) (ran - cycles) cpu' places (omega arith) (omega arith)
                        (λ o z. omega arith) (ground arith) linked))
                (λ later.
                  run_slice_returns turns tick_i total (cycles - ran) (ran - cycles) ahead behind
                    cpu' places (omega arith) near (λ o z. ground (arith, due))
                    (ground (arith, due)) linked))
      ]
