-- ===== src/Debugger.antt =====
-- libz80e/src/debugger/debugger.c: the search for a command by a prefix of its name. Strings are lists
-- of their characters; a priority is counted from `INT_MIN`, so that no priority is below 0.
-- What a command does is left out.
pub mod Lookup
pub mod Commandline
pub mod Breakpoints
mod Tests
use z80e.Common.{
  ℕ, zero, suc, ◌+◌, Bool, true, false, not, ◌&&◌, ◌||◌, List, [], ◌∷◌, ◌++◌, Option, none, some,
  ltb, ◌==◌, ◌!=◌, if◌then◌else◌, length,
}

-- `debugger_command_t` without the function and its state.
pub record Command : Type 0 where
  pub name : List ℕ
  pub priority : ℕ

-- The results 1, 0 and -1.
pub data Verdict : Type 0 where
  found : Verdict
  not_found : Verdict
  ambiguous : Verdict

-- The local variables of `find_best_command`.
pub record Search : Type 0 where
  pub max_match : ℕ
  pub match_numbers : ℕ
  pub highest_priority : ℕ
  pub highest_priority_max : ℕ
  pub best_command : Option Command

unfoldable pub compare_strings : List ℕ → List ℕ → ℕ
compare_strings [] b = 0
compare_strings (x ∷ a) [] = 0
compare_strings (x ∷ a) (y ∷ b) = let rest = compare_strings a b in if x == y then suc rest else 0

-- One turn of the loop.
unfoldable pub consider : List ℕ → Command → Search → Search
consider f_command cmd s =
    let match = compare_strings f_command cmd.name in
    if ltb (length cmd.name) (length f_command)
    then s
    else (if length f_command != match && ltb match (length f_command)
        then s
        else (if ltb match s.max_match
            then s
            else (if ltb s.max_match match
                then record {
                  max_match = match;
                  match_numbers = 0;
                  highest_priority = cmd.priority;
                  highest_priority_max = 0;
                  best_command = some cmd;
                }
                else (if ltb s.highest_priority cmd.priority
                    then record {
                      max_match = s.max_match;
                      match_numbers = s.match_numbers + 1;
                      highest_priority = cmd.priority;
                      highest_priority_max = 0;
                      best_command = some cmd;
                    }
                    else (if cmd.priority == s.highest_priority
                        then record s {
                          match_numbers = s.match_numbers + 1;
                          highest_priority_max = s.highest_priority_max + 1;
                        }
                        else record s { match_numbers = s.match_numbers + 1 })))))

unfoldable pub consider_all : List ℕ → List Command → Search → Search
consider_all f_command [] s = s
consider_all f_command (cmd ∷ cmds) s = consider_all f_command cmds (consider f_command cmd s)

-- The end of `find_best_command`.
unfoldable pub verdict : Search → Verdict
verdict s =
    if s.max_match != 0 && s.match_numbers == 0 || s.max_match != 0 && ltb s.highest_priority_max 1
    then found
    else (if s.max_match == 0
        then not_found
        else (if ltb 1 s.match_numbers || ltb 0 s.highest_priority_max
            then ambiguous
            else not_found))

abbrev pub no_search : Search
no_search = record {
  max_match = 0;
  match_numbers = 0;
  highest_priority = 0;
  highest_priority_max = 0;
  best_command = none;
}

unfoldable pub find_best_command : List Command → List ℕ → Verdict × Option Command
find_best_command commands f_command =
    let s = consider_all f_command commands no_search in (verdict s, s.best_command)

-- The growth of the array is left out.
unfoldable pub register_command : List Command → List ℕ → ℕ → List Command
register_command commands name priority =
    commands ++ record { name = name; priority = priority } ∷ []
