-- ===== src/Ti/Keyboard/Laws.antt =====
-- The keyboard port as a wired conjunction of the selected groups.
use z80e.Common.{
  ℕ, zero, suc, ◌+◌, ◌-◌, ◌*◌, ◌/◌, ◌%◌, ◌^◌, ◌<◌, ◌≤◌, ◌≡◌, refl, sym, ap, ◌∙◌, arith, Bool, true,
  false, not, ◌&&◌, ◌||◌, bit_and, ◌|||◌, if◌then◌else◌, to_bool, u8, int_not, ◌<<<◌, bit,
  bit-bit_or, bit-u8, bit-suc, mask-bit, failures, no_failure,
}
use z80e.Core.Flags.Laws.{bit-zero}
use z80e.Ti.Keyboard.{Keyboard, group_at, read_groups, read_keyboard}

-- Whether bit `k` of some group below `n` is down and the group is selected.
unfoldable pub any_down : Keyboard → ℕ → ℕ → Bool
any_down state k zero = false
any_down state k (suc i) =
    (bit i state.group_mask && not (bit k (group_at state i))) || any_down state k i

down_of : Keyboard → ℕ → ℕ → ℕ → Bool
down_of state k zero mask = false
down_of state k (suc i) mask =
    (bit 7 mask && not (bit k (group_at state i))) || down_of state k i (u8 (mask <<< 1))

complement_agrees : ℕ → Bool
complement_agrees i =
    let k = i / 256 in let g = i % 256 in if bit k (u8 (int_not g)) then not (bit k g) else bit k g

complement_table : failures complement_agrees 2048 ≡ 0
unfolding failures complement_agrees
complement_table = refl

complement : (k g : ℕ) → k < 8 → g < 2 ^ 8 → bit k (u8 (int_not g)) ≡ not (bit k g)
unfolding complement_agrees
complement k g h small =
    let agrees = no_failure complement_agrees (k * 256 + g) (omega arith) complement_table in
    let place : (k * 256 + g) / 256 ≡ k = omega arith in
    let rest : (k * 256 + g) % 256 ≡ g = omega arith in
    choose (bit k (u8 (int_not g))) (bit k g) (rw (place, rest) at agrees)
  where
    choose : (a b : Bool) → (if a then not b else b) ≡ true → a ≡ not b
    choose a b e = ground arith

gather :
    (m g b : Bool) (k value value' : ℕ) (rest : Bool)
    → bit k value ≡ b
    → bit k value' ≡ (b || not g)
    → (bit k (if m then value' else value) || rest) ≡ (b || (m && not g || rest))
gather true g b k value value' rest e e' = rw e' (ground arith)
gather false g b k value value' rest e e' = rw e refl

module _ (state : Keyboard) (bytes : (i : ℕ) → group_at state i < 2 ^ 8) where
  bit-read_groups :
      (k n mask value : ℕ)
      → k < 8
      → bit k (read_groups state n mask value) ≡ (bit k value || down_of state k n mask)
  unfolding read_groups down_of
  bit-read_groups k zero mask value h = ground arith
  bit-read_groups k (suc n) mask value h =
      let group = group_at state n in
      let value' = u8 (value ||| int_not group) in
      let joined : bit k value' ≡ (bit k value || not (bit k group)) =
        bit-u8 k _ h
        ∙ bit-bit_or k value (int_not group)
        ∙ ap (λ t. bit k value || t)
            (sym (bit-u8 k (int_not group) h) ∙ complement k group h (bytes n)) in
      bit-read_groups k n (u8 (mask <<< 1)) (if to_bool (bit_and mask 0x80) then value' else value)
        h
      ∙ rw (mask-bit 7 mask) (
          gather (bit 7 mask) (bit k group) (bit k value) k value value'
            (down_of state k n (u8 (mask <<< 1))) refl joined)

  shift_out : (j m : ℕ) → j < 7 → bit (suc j) (u8 (m <<< 1)) ≡ bit j m
  shift_out j m h =
      let half : m * 2 ^ 1 / 2 ≡ m = omega arith in
      bit-u8 (suc j) (m <<< 1) (omega arith) ∙ bit-suc j (m * 2 ^ 1) ∙ rw half refl

  -- The mask moves left so that its top bit is the bit of the group at hand.
  down_of-any :
      (k n m : ℕ)
      → n ≤ 8
      → ((j : ℕ) → j < n → bit (j + (8 - n)) m ≡ bit j state.group_mask)
      → down_of state k n m ≡ any_down state k n
  unfolding down_of any_down
  down_of-any k zero m le moved = refl
  down_of-any k (suc n) m le moved =
      let top : n + (8 - suc n) ≡ 7 = omega arith in
      let first : bit 7 m ≡ bit n state.group_mask = rw top at (moved n (omega arith)) in
      rw
        (
          first,
          down_of-any k n (u8 (m <<< 1)) (omega arith) (λ j lt.
              let next : j + (8 - n) ≡ suc (j + (8 - suc n)) = omega arith in
              rw next (shift_out (j + (8 - suc n)) m (omega arith) ∙ moved j (omega arith))),
        )
        refl

  read_groups-lt : (n mask value : ℕ) → value < 2 ^ 8 → read_groups state n mask value < 2 ^ 8
  unfolding read_groups
  read_groups-lt zero mask value small = small
  read_groups-lt (suc n) mask value small = read_groups-lt n _ _ (ground arith)

  -- When the groups are bytes: bit `k` of the keyboard port is 0 exactly when bit `k` of some
  -- selected group is down.
  pub read_keyboard-any_down :
      (k : ℕ) → k < 8 → bit k (read_keyboard state) ≡ not (any_down state k 8)
  unfolding read_keyboard
  read_keyboard-any_down k h =
      let mask = state.group_mask in
      let aligned : (j : ℕ) → j < 8 → bit (j + (8 - 8)) mask ≡ bit j mask =
        λ j lt. let same : j + (8 - 8) ≡ j = omega arith in rw same refl in
      let none_yet : bit k 0 ≡ false = bit-zero k in
      complement k _ h (read_groups-lt 8 mask 0 (omega arith))
      ∙ ap not
          (bit-read_groups k 8 mask 0 h ∙ rw none_yet (down_of-any k 8 mask (omega arith) aligned))
