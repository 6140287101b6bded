-- ===== src/Debugger/Commandline.antt =====
-- `debugger_parse_commandline` and `debugger_exec` of libz80e/src/debugger/debugger.c. A read behind
-- the end of the line, and a word too many for the array of ten, is `none`.
pub mod Words
use z80e.Common.{
  ℕ, zero, suc, ◌+◌, Bool, true, false, not, ◌&&◌, ◌||◌, List, [], ◌∷◌, Option, none, some, ltb,
  leb, ◌==◌, ◌!=◌, if◌then◌else◌, length,
}
use z80e.Debugger.{Command, Verdict, found, not_found, ambiguous, find_best_command}

infixl 5 ◌>>=◌
abbrev pub ◌>>=◌ : {A B : Type 0} → Option A → (A → Option B) → Option B
none >>= k = none
some a >>= k = k a

-- The characters `"` and `\\`.
abbrev pub quote : ℕ
quote = 34

abbrev pub backslash : ℕ
backslash = 92

-- `(is_string || *tmp != ' ') && *tmp != '\n'`.
unfoldable pub in_word : Bool → ℕ → Bool
in_word is_string c = (is_string || c != 32) && c != 10

-- The first loop: how many characters the word may have.
unfoldable pub measure : Bool → List ℕ → Option ℕ
measure is_string [] = some 0
measure is_string (c ∷ []) =
    if in_word is_string c
    then (if c == backslash && is_string || c == quote then none else some 1)
    else some 0
measure is_string (c ∷ d ∷ s) =
    let past = measure (if c == quote then not is_string else is_string) s in
    let next = measure is_string (d ∷ s) in
    if in_word is_string c
    then (if c == backslash && is_string || c == quote
        then (do len ← past; some (suc len))
        else (do len ← next; some (suc len)))
    else some 0

-- The character after a backslash.
unfoldable pub escaped : ℕ → ℕ
escaped c = if c == 116 then 9 else (if c == 110 then 10 else (if c == 114 then 13 else c))

-- The second loop: the word and what follows it.
unfoldable pub copy : Bool → List ℕ → Option (List ℕ × List ℕ)
copy is_string [] = some ([], [])
copy is_string (c ∷ []) =
    if in_word is_string c
    then (if c == backslash && is_string
        then none
        else (if c == quote then some ([], []) else some (c ∷ [], [])))
    else some ([], c ∷ [])
copy is_string (c ∷ d ∷ s) =
    let past = copy is_string s in
    let toggled = copy (not is_string) (d ∷ s) in
    let next = copy is_string (d ∷ s) in
    if in_word is_string c
    then (if c == backslash && is_string
        then (do r ← past; some (escaped d ∷ r.0, r.1))
        else (if c == quote then toggled else (do r ← next; some (c ∷ r.0, r.1))))
    else some ([], c ∷ d ∷ s)

unfoldable pub skip_blanks : List ℕ → List ℕ
skip_blanks [] = []
skip_blanks (c ∷ s) = let rest = skip_blanks s in if c == 32 then rest else c ∷ s

-- `*cmdline != 0 && *cmdline != '\n'`.
unfoldable pub has_word : List ℕ → Bool
has_word [] = false
has_word (c ∷ s) = c != 10

-- The outer loop with `n` words read; a word longer than its buffer is `none` too.
unfoldable pub parse_words : ℕ → ℕ → List ℕ → Option (List (List ℕ))
parse_words zero n cmdline = none
parse_words (suc fuel) n cmdline =
    if has_word cmdline
    then (do
      len ← measure false cmdline
      copied ← copy false cmdline
      words ← parse_words fuel (n + 1) (skip_blanks copied.1)
      if ltb n 10 && leb (length copied.0) len then some (copied.0 ∷ words) else none)
    else some []

-- A turn of the loop takes at least one character.
unfoldable pub debugger_parse_commandline : List ℕ → Option (List (List ℕ))
debugger_parse_commandline cmdline = parse_words (suc (length cmdline)) 0 cmdline

-- `debugger_exec`: -1, -2 or the command to run with its arguments. An empty line is read behind its
-- end.
pub data Execution : Type 0 where
  ambiguous_command : Execution
  unknown_command : Execution
  run_command : Command → List (List ℕ) → Execution

unfoldable pub executes : List (List ℕ) → Verdict × Option Command → Execution
executes argv (ambiguous, command) = ambiguous_command
executes argv (not_found, command) = unknown_command
executes argv (found, none) = unknown_command
executes argv (found, some command) = run_command command argv

unfoldable pub first_word : List (List ℕ) → Option (List ℕ)
first_word [] = none
first_word (w ∷ ws) = some w

unfoldable pub debugger_exec : List Command → List ℕ → Option Execution
debugger_exec commands command_str = do
  cmdline ← debugger_parse_commandline command_str
  name ← first_word cmdline
  some (executes cmdline (find_best_command commands name))
