-- ===== src/Hooks/Tests.antt =====
-- The theorems on the hooks at concrete inputs.
use z80e.Common.{
  ℕ, suc, ◌+◌, ◌≡◌, refl, arith, true, false, List, [], ◌∷◌, some, ◌==◌, ◌++◌, if◌then◌else◌,
  get_or, replicate,
}
use z80e.Hooks.{
  RangeHook, ExecutionHook, no_range_hook, no_execution_hook, hook_on_memory,
  hook_add_to_memory_array, hook_remove_range,
}
use z80e.Hooks.Slots.{
  claim, full, clear_first, first_free, claim_forgetful, grow_forgetful, has_free, claim_lem,
  claim_forgetful_lem,
}
use z80e.Hooks.Events.{Calls, hook_on_memory-Calls, hook_remove-hook_add}

-- Adds one to the value and counts the call.
abbrev count_up : ℕ → ℕ → ℕ → ℕ × ℕ
count_up w address value = (value + 1, suc w)

abbrev screen : RangeHook ℕ
screen = record { callback = count_up; range_start = 0x9340; range_end = 0x963f; in_use = true }

abbrev whole : RangeHook ℕ
whole = record { callback = count_up; range_start = 0; range_end = 0xffff; in_use = true }

abbrev table : List (RangeHook ℕ)
table = screen ∷ no_range_hook ∷ whole ∷ []

both_called : hook_on_memory table 0 0x9400 0xfe ≡ (0, 2)
unfolding hook_on_memory
both_called = refl

hook_on_memory-Calls_example : Calls 0x9400 table 0 7 (hook_on_memory table 0 0x9400 7)
hook_on_memory-Calls_example = hook_on_memory-Calls table 0 0x9400 7

hook_remove-hook_add_example :
    (i : ℕ) × (table' : List (RangeHook ℕ)) × (hook_add_to_memory_array table 5 9 count_up
      ≡ some (i, table'))
    × ((w : ℕ) (address value : ℕ)
        → hook_on_memory (hook_remove_range table' i) w address value
          ≡ hook_on_memory table w address value)
hook_remove-hook_add_example = hook_remove-hook_add 5 9 count_up screen (no_range_hook ∷ whole ∷ [])

claim_lem_example :
    (i : ℕ) × (table' : List (RangeHook ℕ)) × (claim (λ cb. cb.in_use) no_range_hook whole table
      ≡ some (i, table'))
    × ((get_or table i no_range_hook).in_use ≡ false)
    × ((j : ℕ)
        → get_or table' j no_range_hook ≡ (if j == i then whole else get_or table j no_range_hook))
claim_lem_example =
    claim_lem (λ cb. cb.in_use) no_range_hook refl whole screen (no_range_hook ∷ whole ∷ [])

abbrev breakpoint : ExecutionHook ℕ
breakpoint = record { callback = λ w address. suc w; in_use = true }

abbrev ten : List (ExecutionHook ℕ)
ten = replicate 10 breakpoint

abbrev grown : List (ExecutionHook ℕ)
grown =
    replicate 10 no_execution_hook
    ++ replicate 10 breakpoint
    ++ breakpoint ∷ replicate 9 no_execution_hook

ten-full : full (λ (cb : ExecutionHook ℕ). cb.in_use) no_execution_hook ten ≡ true
unfolding full
ten-full = refl

forgotten :
    claim_forgetful
      (λ cb. cb.in_use)
      no_execution_hook
      (replicate 10 breakpoint ∷ replicate 10 no_execution_hook ∷ [])
      breakpoint
      ten
    ≡ some (20, grown)
unfolding claim_forgetful grow_forgetful clear_first full first_free
forgotten = refl

looks_free :
    has_free
      (λ (cb : ExecutionHook ℕ). cb.in_use)
      no_execution_hook
      (replicate 10 breakpoint ∷ replicate 10 no_execution_hook ∷ [])
    ≡ true
unfolding has_free full
looks_free = refl

-- The first growth brings entries that look in use, so that the table grows again.
claim_forgetful_lem_example :
    (i : ℕ) × (table' : List (ExecutionHook ℕ)) × (claim_forgetful
        (λ (cb : ExecutionHook ℕ). cb.in_use)
        no_execution_hook
        (replicate 10 breakpoint ∷ replicate 10 no_execution_hook ∷ [])
        breakpoint
        ten
      ≡ some (i, table'))
    × (get_or table' 4 no_execution_hook ≡ no_execution_hook)
claim_forgetful_lem_example =
    claim_forgetful_lem (λ cb. cb.in_use) no_execution_hook refl breakpoint ten
      (replicate 10 breakpoint ∷ replicate 10 no_execution_hook ∷ []) 4 refl ten-full looks_free
      (omega arith)
