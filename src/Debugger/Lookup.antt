-- ===== src/Debugger/Lookup.antt =====
-- Which command the search for a prefix finds.
use z80e.Common.{
  ℕ, ◌+◌, ◌≤◌, ◌<◌, ◌≡◌, refl, ap, ◌⊎◌, inl, inr, arith, Bool, true, false, ◌&&◌, List, [], ◌∷◌,
  none, some, ltb, ◌==◌, if◌then◌else◌, length, Bool-cases, to_ℕ,
}
use z80e.Debugger.{
  Command, found, not_found, ambiguous, Search, no_search, compare_strings, consider, consider_all,
  verdict, find_best_command,
}

-- Whether the first string is a prefix of the second.
unfoldable pub is_prefix : List ℕ → List ℕ → Bool
is_prefix [] b = true
is_prefix (x ∷ a) [] = false
is_prefix (x ∷ a) (y ∷ b) = x == y && is_prefix a b

-- How many commands of a priority the prefix could mean.
unfoldable pub candidates : List ℕ → ℕ → List Command → ℕ
candidates f_command p [] = 0
candidates f_command p (cmd ∷ cmds) =
    to_ℕ (is_prefix f_command cmd.name && cmd.priority == p) + candidates f_command p cmds

compare_strings-prefix :
    (a b : List ℕ) → is_prefix a b ≡ true → (compare_strings a b ≡ length a) × (length a ≤ length b)
unfolding is_prefix compare_strings
compare_strings-prefix [] b h = (refl, omega arith)
compare_strings-prefix (x ∷ a) [] h = absurd (ground arith)
compare_strings-prefix (x ∷ a) (y ∷ b) h =
    let (same, fits) = compare_strings-prefix a b (ground arith) in (ground arith, ground arith)

compare_strings-other : (a b : List ℕ) → is_prefix a b ≡ false → compare_strings a b < length a
unfolding is_prefix compare_strings
compare_strings-other [] b h = absurd (ground arith)
compare_strings-other (x ∷ a) [] h = omega arith
compare_strings-other (x ∷ a) (y ∷ b) h = elim (Bool-cases (is_prefix a b)) [
  | inl on ↦ ground arith
  | inr off ↦ ground (arith, compare_strings-other a b off)
]

-- A command that the prefix cannot mean is passed over.
consider-other :
    (f_command : List ℕ) (cmd : Command) (s : Search)
    → is_prefix f_command cmd.name ≡ false
    → consider f_command cmd s ≡ s
unfolding consider
consider-other f_command cmd s h =
    let shorter = compare_strings-other f_command cmd.name h in ground arith

-- A search that has seen a command `b`: it is the best one so far.
pub record Seen (f_command : List ℕ) (b : Command) (s : Search) : Type 0 where
  pub nonempty : 0 < length f_command
  pub max_match : s.max_match ≡ length f_command
  pub best : s.best_command ≡ some b
  pub priority : s.highest_priority ≡ b.priority
  pub ties : s.highest_priority_max ≤ s.match_numbers
  pub fits : is_prefix f_command b.name ≡ true

module _ (f_command : List ℕ) (cmd : Command) (meant : is_prefix f_command cmd.name ≡ true) where
  consider-first :
      (s : Search)
      → s.max_match ≡ 0
      → 0 < length f_command
      → Seen f_command cmd (consider f_command cmd s)
        × ((consider f_command cmd s).highest_priority_max ≡ 0)
  unfolding consider
  consider-first s fresh nonempty =
      let (whole, fits) = compare_strings-prefix f_command cmd.name meant in
      (
        record {
          nonempty = nonempty;
          max_match = ground arith;
          best = ground arith;
          priority = ground arith;
          ties = ground arith;
          fits = meant;
        },
        ground arith,
      )

  consider-better :
      (b : Command) (s : Search)
      → Seen f_command b s
      → b.priority < cmd.priority
      → Seen f_command cmd (consider f_command cmd s)
        × ((consider f_command cmd s).highest_priority_max ≡ 0)
  unfolding consider
  consider-better b s seen better =
      let (whole, fits) = compare_strings-prefix f_command cmd.name meant in
      (
        record {
          nonempty = seen.nonempty;
          max_match = ground (arith, seen.max_match, seen.priority);
          best = ground (arith, seen.max_match, seen.priority);
          priority = ground (arith, seen.max_match, seen.priority);
          ties = ground (arith, seen.max_match, seen.priority);
          fits = meant;
        },
        ground (arith, seen.max_match, seen.priority),
      )

  consider-worse :
      (b : Command) (s : Search)
      → Seen f_command b s
      → cmd.priority ≤ b.priority
      → Seen f_command b (consider f_command cmd s)
        × ((consider f_command cmd s).highest_priority_max
            ≡ s.highest_priority_max + to_ℕ (cmd.priority == b.priority))
  unfolding consider
  consider-worse b s seen worse =
      let (whole, fits) = compare_strings-prefix f_command cmd.name meant in
      (
        record {
          nonempty = seen.nonempty;
          max_match = ground (arith, seen.max_match, seen.priority);
          best = ground (arith, seen.max_match, seen.priority, seen.best);
          priority = ground (arith, seen.max_match, seen.priority);
          ties = ground (arith, seen.max_match, seen.priority, seen.ties);
          fits = seen.fits;
        },
        ground (arith, seen.max_match, seen.priority),
      )

-- The command is in the list.
unfoldable pub Listed : Command → List Command → Type 0
Listed c [] = false ≡ true
Listed c (cmd ∷ cmds) = (c ≡ cmd) ⊎ Listed c cmds

-- How a search ends that had seen priorities up to `p`, each as often as `before` says, and commands
-- of which `From` holds.
record Ends (f_command : List ℕ) (p : ℕ) (before : ℕ → ℕ) (From : Command → Type 0)
    (cmds : List Command) (s : Search) : Type 0 where
  winner : Command
  seen : Seen f_command winner s
  above : p ≤ winner.priority
  listed : From winner ⊎ Listed winner cmds
  counted :
      s.highest_priority_max + 1
      ≡ before winner.priority + candidates f_command winner.priority cmds
  none_above : (d : ℕ) → candidates f_command (winner.priority + 1 + d) cmds ≡ 0

consider_all-Ends :
    (f_command : List ℕ) (cmds : List Command) (b : Command) (s : Search)
    → Seen f_command b s
    → Ends f_command b.priority
        (λ q. if q == b.priority then s.highest_priority_max + 1 else 0)
        (λ c. c ≡ b)
        cmds
        (consider_all f_command cmds s)
unfolding consider_all candidates Listed
consider_all-Ends f_command [] b s seen = record {
  winner = b;
  seen = seen;
  above = omega arith;
  listed = inl refl;
  counted = ground arith;
  none_above = λ d. refl;
}
consider_all-Ends f_command (cmd ∷ cmds) b s seen =
    elim (Bool-cases (is_prefix f_command cmd.name)) [
      | inr other ↦
          let ends = consider_all-Ends f_command cmds b s seen in
          record {
            winner = ends.winner;
            seen = rw (consider-other f_command cmd s other) ends.seen;
            above = ends.above;
            listed = elim ends.listed [ inl e ↦ inl e | inr l ↦ inr (inr l) ];
            counted = ground (
              arith,
              ends.counted,
              ap (λ u. (consider_all f_command cmds u).highest_priority_max)
                  (consider-other f_command cmd s other),
            );
            none_above = λ d. ground (arith, ends.none_above d);
          }
      | inl meant ↦ elim (Bool-cases (ltb b.priority cmd.priority)) [
        | inl better ↦
            let (seen', zero_ties) = consider-better f_command cmd meant b s seen (ground arith) in
            let ends = consider_all-Ends f_command cmds cmd (consider f_command cmd s) seen' in
            record {
              winner = ends.winner;
              seen = ends.seen;
              above = ground (arith, ends.above);
              listed = elim ends.listed [ inl e ↦ inr (inl e) | inr l ↦ inr (inr l) ];
              counted = ground (arith, ends.above, ends.counted, zero_ties);
              none_above = λ d. ground (arith, ends.above, ends.none_above d);
            }
        | inr worse ↦
            let (seen', more_ties) = consider-worse f_command cmd meant b s seen (ground arith) in
            let ends = consider_all-Ends f_command cmds b (consider f_command cmd s) seen' in
            record {
              winner = ends.winner;
              seen = ends.seen;
              above = ends.above;
              listed = elim ends.listed [ inl e ↦ inl e | inr l ↦ inr (inr l) ];
              counted = ground (arith, ends.above, ends.counted, more_ties);
              none_above = λ d. ground (arith, ends.above, ends.none_above d);
            }
      ]
    ]

-- No command fits.
consider_all-none :
    (f_command : List ℕ) (cmds : List Command) (s : Search)
    → s.max_match ≡ 0
    → 0 < length f_command
    → (((p : ℕ) → candidates f_command p cmds ≡ 0) × (consider_all f_command cmds s ≡ s))
      ⊎ Ends f_command 0 (λ q. 0) (λ c. false ≡ true) cmds (consider_all f_command cmds s)
unfolding consider_all candidates Listed
consider_all-none f_command [] s fresh nonempty = inl (λ p. refl, refl)
consider_all-none f_command (cmd ∷ cmds) s fresh nonempty =
    elim (Bool-cases (is_prefix f_command cmd.name)) [
      | inr other ↦ elim (consider_all-none f_command cmds s fresh nonempty) [
        | inl nothing ↦
            inl (
              λ p. ground (arith, nothing.0 p),
              rw (consider-other f_command cmd s other) nothing.1,
            )
        | inr ends ↦ inr (record {
          winner = ends.winner;
          seen = rw (consider-other f_command cmd s other) ends.seen;
          above = ends.above;
          listed = elim ends.listed [ inl e ↦ inl e | inr l ↦ inr (inr l) ];
          counted = ground (
            arith,
            ends.counted,
            ap (λ u. (consider_all f_command cmds u).highest_priority_max)
                (consider-other f_command cmd s other),
          );
          none_above = λ d. ground (arith, ends.none_above d);
        })
      ]
      | inl meant ↦
          let (seen', zero_ties) = consider-first f_command cmd meant s fresh nonempty in
          let ends = consider_all-Ends f_command cmds cmd (consider f_command cmd s) seen' in
          inr (record {
            winner = ends.winner;
            seen = ends.seen;
            above = omega arith;
            listed = elim ends.listed [ inl e ↦ inr (inl e) | inr l ↦ inr (inr l) ];
            counted = ground (arith, ends.counted, ends.above, zero_ties);
            none_above = λ d. ground (arith, ends.above, ends.none_above d);
          })
    ]

verdict-Seen :
    (f_command : List ℕ) (b : Command) (s : Search) (n : ℕ)
    → Seen f_command b s
    → s.highest_priority_max + 1 ≡ n
    → verdict s ≡ (if n == 1 then found else ambiguous)
unfolding verdict
verdict-Seen f_command b s n seen counted = ground (arith, seen.nonempty, seen.max_match, seen.ties)

-- For a prefix that is not empty: when no command's name begins with it, nothing is found. Otherwise
-- the command given is one of the list, its name begins with the prefix, and no such command has a
-- higher priority; the search calls it found when it is the only one of its priority that the
-- prefix fits, and ambiguous when there are others.
pub find_best_command_lem :
    (commands : List Command) (f_command : List ℕ)
    → 0 < length f_command
    → (((p : ℕ) → candidates f_command p commands ≡ 0)
        × (find_best_command commands f_command ≡ (not_found, none)))
      ⊎ ((winner : Command) × Listed winner commands
          × (is_prefix f_command winner.name ≡ true)
          × ((d : ℕ) → candidates f_command (winner.priority + 1 + d) commands ≡ 0)
          × (find_best_command commands f_command ≡ (
            (if candidates f_command winner.priority commands == 1 then found else ambiguous),
            some winner,
          )))
unfolding find_best_command verdict
find_best_command_lem commands f_command nonempty =
    elim (consider_all-none f_command commands no_search refl nonempty) [
      | inl nothing ↦ inl (nothing.0, rw (nothing.1) refl)
      | inr ends ↦
          let seen = ends.seen in
          inr (
            ends.winner,
            elim ends.listed [ inl e ↦ absurd (ground arith) | inr l ↦ l ],
            seen.fits,
            ends.none_above,
            rw
                (
                  verdict-Seen f_command ends.winner _
                      (candidates f_command ends.winner.priority commands) seen
                      (ground (arith, ends.counted)),
                  seen.best,
                )
                refl,
          )
    ]
