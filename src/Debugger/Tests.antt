-- ===== src/Debugger/Tests.antt =====
-- The search for a command at a concrete list, and concrete command lines.
use z80e.Common.{
  ℕ, ◌+◌, ◌-◌, ◌≤◌, ◌≡◌, refl, ◌⊎◌, arith, true, false, List, [], ◌∷◌, ◌++◌, none, some, ltb, ◌==◌,
  ◌&&◌, ◌||◌, if◌then◌else◌,
}
use z80e.Debugger.{
  Command, found, not_found, ambiguous, compare_strings, consider, consider_all, verdict,
  find_best_command, register_command,
}
use z80e.Debugger.Commandline.{
  quote, debugger_parse_commandline, debugger_exec, executes, first_word, run_command, parse_words,
  measure, copy, in_word, escaped, skip_blanks, has_word,
}
use z80e.Debugger.Commandline.Words.{
  is_plain, is_word, are_words, joined, parse_commandline-joined, parse_commandline-quote,
}
use z80e.Core.Cpu.Named.{reg_h, reg_i, reg_pc}
use z80e.Disassembler.SourceMap.{begins, first_of}
use z80e.Hooks.{ExecutionHook, hook_remove_execution}
use z80e.Debugger.Breakpoints.{BreakData, new_break, register_from_string}
use z80e.Debugger.Breakpoints.Count.{hits, break_callbacks, break_callbacks-hits}
use z80e.Debugger.Lookup.{Listed, is_prefix, candidates, find_best_command_lem}

-- The commands `set`, `step` with priority 2 more, `stop` and `stack` with priority 1 more, by the
-- codes of their letters.
abbrev set : Command
set = record { name = 115 ∷ 101 ∷ 116 ∷ []; priority = 100 }

abbrev step_command : Command
step_command = record { name = 115 ∷ 116 ∷ 101 ∷ 112 ∷ []; priority = 102 }

abbrev stop : Command
stop = record { name = 115 ∷ 116 ∷ 111 ∷ 112 ∷ []; priority = 100 }

abbrev stack : Command
stack = record { name = 115 ∷ 116 ∷ 97 ∷ 99 ∷ 107 ∷ []; priority = 101 }

abbrev commands : List Command
commands = register_command (set ∷ stop ∷ step_command ∷ []) (115 ∷ 116 ∷ 97 ∷ 99 ∷ 107 ∷ []) 101

-- `st`
one_letter : find_best_command commands (115 ∷ 116 ∷ []) ≡ (found, some step_command)
unfolding find_best_command verdict consider consider_all compare_strings register_command
one_letter = refl

find_best_command_lem_example :
    (((p : ℕ) → candidates (115 ∷ 116 ∷ []) p commands ≡ 0)
      × (find_best_command commands (115 ∷ 116 ∷ []) ≡ (not_found, none)))
    ⊎ ((winner : Command) × Listed winner commands
        × (is_prefix (115 ∷ 116 ∷ []) winner.name ≡ true)
        × ((d : ℕ) → candidates (115 ∷ 116 ∷ []) (winner.priority + 1 + d) commands ≡ 0)
        × (find_best_command commands (115 ∷ 116 ∷ []) ≡ (
          (if candidates (115 ∷ 116 ∷ []) winner.priority commands == 1 then found else ambiguous),
          some winner,
        )))
find_best_command_lem_example = find_best_command_lem commands (115 ∷ 116 ∷ []) (omega arith)

-- `st 42`
abbrev st_42 : List (List ℕ)
st_42 = (115 ∷ 116 ∷ []) ∷ (52 ∷ 50 ∷ []) ∷ []

st_42-are_words : are_words st_42 ≡ true
unfolding are_words is_word is_plain
st_42-are_words = refl

parse_commandline-joined_example : debugger_parse_commandline (joined st_42) ≡ some st_42
parse_commandline-joined_example = parse_commandline-joined st_42 st_42-are_words

st-is_word : is_word (115 ∷ 116 ∷ []) ≡ true
unfolding is_word is_plain
st-is_word = refl

parse_commandline-quote_example : debugger_parse_commandline ((115 ∷ 116 ∷ []) ++ quote ∷ []) ≡ none
parse_commandline-quote_example = parse_commandline-quote (115 ∷ 116 ∷ []) st-is_word

runs :
    debugger_exec commands (115 ∷ 116 ∷ 32 ∷ 52 ∷ 50 ∷ []) ≡ some (run_command step_command st_42)
unfolding debugger_exec executes first_word debugger_parse_commandline parse_words measure copy
    in_word escaped skip_blanks has_word find_best_command verdict consider consider_all
    compare_strings register_command
runs = refl

-- A break at 0x4000 for two times, in the second entry of the table.
abbrev twice : BreakData
twice = record { address = 0x4000; hook_id = 1; count = 2 }

twice_new : new_break 0x4000 (some 2) 1 ≡ twice
unfolding new_break
twice_new = refl

abbrev two_hooks : List (ExecutionHook ℕ)
two_hooks =
    record { callback = λ w address. w; in_use = true }
    ∷ record { callback = λ w address. w + 1; in_use = true }
    ∷ []

abbrev walk : List ℕ
walk = 0x4000 ∷ 0x4003 ∷ 0x4000 ∷ 0x4003 ∷ []

two_hits : hits 0x4000 walk ≤ 2
unfolding hits
two_hits = omega arith

break_callbacks-hits_example : break_callbacks walk (twice, false, two_hooks) ≡ (
  record twice { count = 2 - hits 0x4000 walk },
  ltb 0 (hits 0x4000 walk) || false,
  if ltb 0 (hits 0x4000 walk) && hits 0x4000 walk == 2
      then hook_remove_execution two_hooks 1
      else two_hooks,
)
break_callbacks-hits_example =
    break_callbacks-hits walk twice false two_hooks (omega arith) two_hits

-- The names `HL`, `IX` and `PC`.
names :
    (register_from_string (72 ∷ 76 ∷ []) ≡ some reg_h)
    × (register_from_string (73 ∷ 88 ∷ []) ≡ some reg_i)
    × (register_from_string (80 ∷ 67 ∷ []) ≡ some reg_pc)
unfolding register_from_string first_of begins
names = (refl, refl, refl)
