-- ===== src/Debugger/Commandline/Words.antt =====
-- Lines of plain words.
use z80e.Common.{
  ℕ, zero, suc, ◌+◌, ◌-◌, ◌≤◌, ◌<◌, ◌≡◌, refl, ap, arith, Bool, true, false, ◌&&◌, List, [], ◌∷◌,
  ◌++◌, none, some, ltb, leb, ◌==◌, ◌!=◌, if◌then◌else◌, length, length-append,
}
use z80e.Debugger.Commandline.{
  measure, copy, in_word, skip_blanks, has_word, parse_words, debugger_parse_commandline, quote,
}

-- A character that stands for itself outside quotes.
unfoldable pub is_plain : ℕ → Bool
is_plain c = c != 32 && c != 10 && c != 34

-- A word of plain characters, with at least one.
unfoldable pub is_word : List ℕ → Bool
is_word [] = false
is_word (c ∷ []) = is_plain c
is_word (c ∷ d ∷ w) = is_plain c && is_word (d ∷ w)

-- The words with a blank between each two.
unfoldable pub joined : List (List ℕ) → List ℕ
joined [] = []
joined (w ∷ []) = w
joined (w ∷ v ∷ ws) = w ++ 32 ∷ joined (v ∷ ws)

-- What may follow a word: nothing, or a blank.
unfoldable pub ends_word : List ℕ → Bool
ends_word [] = true
ends_word (c ∷ s) = c == 32

measure-word :
    (w s : List ℕ)
    → is_word w ≡ true
    → ends_word s ≡ true
    → measure false (w ++ s) ≡ some (length w)
unfolding measure is_word is_plain ends_word in_word
measure-word [] s h e = absurd (ground arith)
measure-word (c ∷ []) [] h e = ground arith
measure-word (c ∷ []) (b ∷ []) h e = ground arith
measure-word (c ∷ []) (b ∷ d ∷ s) h e = ground arith
measure-word (c ∷ d ∷ w) s h e = ground (arith, measure-word (d ∷ w) s (ground arith) e)

copy-word :
    (w s : List ℕ) → is_word w ≡ true → ends_word s ≡ true → copy false (w ++ s) ≡ some (w, s)
unfolding copy is_word is_plain ends_word in_word
copy-word [] s h e = absurd (ground arith)
copy-word (c ∷ []) [] h e = ground arith
copy-word (c ∷ []) (b ∷ []) h e = ground arith
copy-word (c ∷ []) (b ∷ d ∷ s) h e = ground arith
copy-word (c ∷ d ∷ w) s h e = ground (arith, copy-word (d ∷ w) s (ground arith) e)

unfoldable pub are_words : List (List ℕ) → Bool
are_words [] = true
are_words (w ∷ ws) = is_word w && are_words ws

append_nil : (w : List ℕ) → w ++ [] ≡ w
append_nil [] = refl
append_nil (c ∷ w) = ap (λ v. c ∷ v) (append_nil w)

has_word-word : (w s : List ℕ) → is_word w ≡ true → has_word (w ++ s) ≡ true
unfolding has_word is_word is_plain
has_word-word [] s h = absurd (ground arith)
has_word-word (c ∷ []) s h = ground arith
has_word-word (c ∷ d ∷ w) s h = ground arith

skip_blanks-word : (w s : List ℕ) → is_word w ≡ true → skip_blanks (w ++ s) ≡ w ++ s
unfolding skip_blanks is_word is_plain
skip_blanks-word [] s h = absurd (ground arith)
skip_blanks-word (c ∷ []) s h = ground arith
skip_blanks-word (c ∷ d ∷ w) s h = ground arith

skip_blanks-joined :
    (ws : List (List ℕ)) → are_words ws ≡ true → skip_blanks (joined ws) ≡ joined ws
unfolding joined are_words skip_blanks
skip_blanks-joined [] h = refl
skip_blanks-joined (w ∷ []) h = rw (append_nil w) at (skip_blanks-word w [] (ground arith))
skip_blanks-joined (w ∷ v ∷ ws) h = skip_blanks-word w (32 ∷ joined (v ∷ ws)) (ground arith)

-- One turn of the loop at a word.
parse_words-word :
    (fuel n : ℕ) (w s : List ℕ) (ws : List (List ℕ)) (fits : Bool)
    → is_word w ≡ true
    → ends_word s ≡ true
    → parse_words fuel (n + 1) (skip_blanks s) ≡ (if fits then some ws else none)
    → parse_words (suc fuel) n (w ++ s) ≡ (if ltb n 10 && fits then some (w ∷ ws) else none)
unfolding parse_words
parse_words-word fuel n w s ws true h e later =
    let long_enough : leb (length w) (length w) ≡ true = ground arith in
    rw
      (
        parse_words,
        has_word-word w s h,
        measure-word w s h e,
        copy-word w s h e,
        later,
        long_enough,
      )
      (ground arith)
parse_words-word fuel n w s ws false h e later =
    rw (parse_words, has_word-word w s h, measure-word w s h e, copy-word w s h e, later)
      (ground arith)

room : (k n : ℕ) → (ltb n 10 && leb k (10 - (n + 1))) ≡ leb (suc k) (10 - n)
room k n = ground arith

parse_words-joined :
    (fuel n : ℕ) (ws : List (List ℕ))
    → are_words ws ≡ true
    → length ws < fuel
    → parse_words fuel n (joined ws) ≡ (if leb (length ws) (10 - n) then some ws else none)
unfolding parse_words joined are_words has_word skip_blanks ends_word
parse_words-joined zero n ws h enough = absurd (omega arith)
parse_words-joined (suc fuel) n [] h enough = ground arith
parse_words-joined (suc fuel) n (w ∷ []) h enough =
    let later = parse_words-joined fuel (n + 1) [] refl (omega arith) in
    let turn = parse_words-word fuel n w [] [] _ (ground arith) refl later in
    rw (append_nil w, room 0 n) at turn
parse_words-joined (suc fuel) n (w ∷ v ∷ ws) h enough =
    let later = parse_words-joined fuel (n + 1) (v ∷ ws) (ground arith) (omega arith) in
    let start = skip_blanks-joined (v ∷ ws) (ground arith) in
    let turn =
      parse_words-word fuel n w (32 ∷ joined (v ∷ ws)) (v ∷ ws)
        (leb (length (v ∷ ws)) (10 - (n + 1))) (ground arith) refl (rw start later) in
    rw (room (length (v ∷ ws)) n) at turn

words_le : (ws : List (List ℕ)) → are_words ws ≡ true → length ws ≤ length (joined ws)
unfolding are_words joined is_word
words_le [] h = omega arith
words_le ([] ∷ ws) h = absurd (ground arith)
words_le ((c ∷ w) ∷ []) h = omega arith
words_le ((c ∷ w) ∷ v ∷ ws) h =
    let rest = words_le (v ∷ ws) (ground arith) in
    let whole = length-append w (32 ∷ joined (v ∷ ws)) in omega arith

-- A line of words of plain characters, with a blank between each two, is split into these words when
-- there are at most ten; with more, a word is written behind the array.
pub parse_commandline-joined :
    (ws : List (List ℕ))
    → are_words ws ≡ true
    → debugger_parse_commandline (joined ws) ≡ (if leb (length ws) 10 then some ws else none)
unfolding debugger_parse_commandline
parse_commandline-joined ws h =
    let enough = words_le ws h in parse_words-joined (suc (length (joined ws))) 0 ws h (omega arith)

measure-quote : (w : List ℕ) → is_word w ≡ true → measure false (w ++ quote ∷ []) ≡ none
unfolding measure is_word is_plain in_word
measure-quote [] h = absurd (ground arith)
measure-quote (c ∷ []) h = ground arith
measure-quote (c ∷ d ∷ w) h = ground (arith, measure-quote (d ∷ w) (ground arith))

-- A word with a quote at its end, which ends the line, is read behind the end of the line.
pub parse_commandline-quote :
    (w : List ℕ) → is_word w ≡ true → debugger_parse_commandline (w ++ quote ∷ []) ≡ none
unfolding debugger_parse_commandline parse_words
parse_commandline-quote w h = rw (has_word-word w (quote ∷ []) h, measure-quote w h) refl
