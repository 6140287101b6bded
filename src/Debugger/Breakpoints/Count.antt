-- ===== src/Debugger/Breakpoints/Count.antt =====
-- When a breakpoint with a count goes away.
use z80e.Common.{
  ℕ, suc, ◌+◌, ◌-◌, ◌%◌, ◌^◌, ◌≤◌, ◌<◌, ◌≡◌, refl, arith, Bool, true, false, ◌&&◌, ◌||◌, List, [],
  ◌∷◌, ltb, ◌==◌, if◌then◌else◌, Bool-cases, inl, inr,
}
use z80e.Debugger.Breakpoints.{BreakData, BreakState, break_callback}
use z80e.Hooks.{ExecutionHook, hook_remove_execution}

-- How many of the addresses the breakpoint is at.
unfoldable pub hits : ℕ → List ℕ → ℕ
hits address [] = 0
hits address (a ∷ trace) = let rest = hits address trace in if address == a then suc rest else rest

module _ {W : Type 0} where
  -- The callback before each instruction of a trace.
  unfoldable pub break_callbacks : List ℕ → BreakState W → BreakState W
  break_callbacks [] state = state
  break_callbacks (a ∷ trace) state = break_callbacks trace (break_callback a state)

  -- For a breakpoint with a count, at most as many of whose addresses are met as the count says: each
  -- address that is met lowers the count by one and stops the emulator, and the hook is removed when
  -- the count is used up, and not before.
  pub break_callbacks-hits :
      (trace : List ℕ) (brk : BreakData) (stopped : Bool) (hook : List (ExecutionHook W))
      → brk.count < 2 ^ 32 - 1
      → hits brk.address trace ≤ brk.count
      → break_callbacks trace (brk, stopped, hook) ≡ (
        record brk { count = brk.count - hits brk.address trace },
        ltb 0 (hits brk.address trace) || stopped,
        if ltb 0 (hits brk.address trace) && hits brk.address trace == brk.count
            then hook_remove_execution hook brk.hook_id
            else hook,
      )
  unfolding hits break_callbacks break_callback
  break_callbacks-hits [] brk stopped hook fits le =
      let same : brk.count - 0 ≡ brk.count = omega arith in rw same refl
  break_callbacks-hits (a ∷ trace) brk stopped hook fits le = elim (Bool-cases (brk.address == a)) [
    | inr other ↦
        rw (other, break_callback)
          (break_callbacks-hits trace brk stopped hook fits (rw (other, hits) at le))
    | inl met ↦
        let rest = hits brk.address trace in
        let le' : suc rest ≤ brk.count = rw (met, hits) at le in
        let positive : 1 ≤ brk.count = omega arith in
        let brk' = record brk { count = brk.count - 1 } in
        let small : rest ≤ brk.count - 1 = omega (arith, le') in
        let counted : (brk.count + (2 ^ 32 - 1)) % 2 ^ 32 ≡ brk.count - 1 =
          omega (arith, positive) in
        let finite : (brk.count == 2 ^ 32 - 1) ≡ false = ground arith in
        let left : brk.count - suc rest ≡ brk.count - 1 - rest = omega arith in
        let removed = hook_remove_execution hook brk.hook_id in
        let met_once : hits brk.address (a ∷ trace) ≡ suc rest = rw (met, hits) refl in
        let once : ltb 0 (suc rest) ≡ true = ground arith in
        elim (Bool-cases (brk.count - 1 == 0)) [
          | inl last ↦
              let now : break_callback a (brk, stopped, hook) ≡ (brk', true, removed) =
                rw (met, finite, counted, last, break_callback) refl in
              let ih = break_callbacks-hits trace brk' true removed (omega arith) small in
              let no_more : ltb 0 rest ≡ false = ground arith in
              let used_up : (suc rest == brk.count) ≡ true = ground arith in
              rw (now, met_once, left, once, used_up) (rw no_more at ih)
          | inr more ↦
              let now : break_callback a (brk, stopped, hook) ≡ (brk', true, hook) =
                rw (met, finite, counted, more, break_callback) refl in
              let ih = break_callbacks-hits trace brk' true hook (omega arith) small in
              let same : (suc rest == brk.count) ≡ (ltb 0 rest && rest == brk.count - 1) =
                ground arith in
              let stops : (ltb 0 rest || true) ≡ true = ground arith in
              rw (now, met_once, left, once, same) (rw stops at ih)
        ]
  ]
