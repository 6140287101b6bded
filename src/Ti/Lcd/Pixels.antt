-- ===== src/Ti/Lcd/Pixels.antt =====
-- What is written to the display is read back.
use z80e.Common.{
  ℕ, zero, suc, ◌+◌, ◌-◌, ◌*◌, ◌/◌, ◌%◌, ◌^◌, ◌≤◌, ◌<◌, ◌≡◌, refl, ◌∙◌, arith, Bool, true, false,
  bit_and, ◌|||◌, ◌==◌, if◌then◌else◌, with_bit, bit-with_bit, to_ℕ, to_bool, u8, ◌<<<◌, bit,
  mask-bit, or_lowest, Bool-cases, inl, inr, ==_iff, bit_or,
}
use z80e.Ti.Lcd.{location, bw_lcd_read_screen, bw_lcd_write_screen, read_pixels, write_pixels}

-- A pixel reads as what was last written to it, and a write changes no other pixel.
pub read_screen-write_screen :
    (ram : ℕ → ℕ) (y x y' x' : ℕ) (val : Bool)
    → bw_lcd_read_screen (bw_lcd_write_screen ram y x val).1 y' x'
      ≡ (if location y' x' == location y x then val else bw_lcd_read_screen ram y' x')
unfolding bw_lcd_read_screen bw_lcd_write_screen
read_screen-write_screen ram y x y' x' val =
    let i = location y x in
    let j = location y' x' in
    let new = with_bit (ram (i / 8)) (i % 8) val in
    let written : bit (j % 8) new ≡ (if j % 8 == i % 8 then val else bit (j % 8) (ram (i / 8))) =
      bit-with_bit (ram (i / 8)) (j % 8) (i % 8) val (omega arith) (omega arith) in
    elim (Bool-cases (j / 8 == i / 8)) [
      | inl same ↦
          let same' = (==_iff (j / 8) (i / 8)).0 same in
          let tests : (j % 8 == i % 8) ≡ (j == i) = ground arith in
          rw (mask-bit, mask-bit, same, same', written, tests) refl
      | inr other ↦
          let differ : (j == i) ≡ false = ground arith in
          rw (mask-bit, mask-bit, other, differ) refl
    ]

module _ (x val : ℕ) where
  -- Pixels to the right of the word stay.
  write_pixels-right :
      (n i c col : ℕ) (done : Bool × (ℕ → ℕ))
      → n ≤ c + 1
      → c < col
      → bw_lcd_read_screen (write_pixels n i c x val done).1 col x ≡ bw_lcd_read_screen done.1 col x
  unfolding write_pixels
  write_pixels-right zero i c col done h lt = refl
  write_pixels-right (suc n) i c col done h lt =
      let bit_i = to_bool (bit_and val (2 ^ i)) in
      let away : (location col x == location c x) ≡ false = ground arith in
      write_pixels-right n (i + 1) (c - 1) col _ (omega arith) (omega arith)
      ∙ read_screen-write_screen done.1 c x col x bit_i
      ∙ rw away refl

  read_back :
      (ram : ℕ → ℕ) (i c : ℕ)
      → bw_lcd_read_screen (bw_lcd_write_screen ram c x (to_bool (bit_and val (2 ^ i)))).1 c x
        ≡ bit i val
  read_back ram i c =
      let here : (location c x == location c x) ≡ true = ground arith in
      read_screen-write_screen ram c x c x _ ∙ rw here (mask-bit i val)

  -- The pixel `d` columns left of the last one of the word is bit `i + d` of the value.
  pub write_pixels-word :
      (n i c d : ℕ) (done : Bool × (ℕ → ℕ))
      → n ≤ c + 1
      → d < n
      → bw_lcd_read_screen (write_pixels n i c x val done).1 (c - d) x ≡ bit (i + d) val
  unfolding write_pixels
  write_pixels-word zero i c d done h lt = absurd (omega arith)
  write_pixels-word (suc zero) i c zero done h lt =
      let place : i + 0 ≡ i = omega arith in
      let column : c - 0 ≡ c = omega arith in rw (place, column) (read_back done.1 i c)
  write_pixels-word (suc (suc n)) i c zero done h lt =
      let place : i + 0 ≡ i = omega arith in
      let column : c - 0 ≡ c = omega arith in
      rw (place, column)
        (write_pixels-right (suc n) (i + 1) (c - 1) c _ (omega arith) (omega arith)
          ∙ read_back done.1 i c)
  write_pixels-word (suc n) i c (suc d) done h lt =
      let column : c - suc d ≡ c - 1 - d = omega arith in
      let place : i + suc d ≡ i + 1 + d = omega arith in
      rw (column, place) (write_pixels-word n (i + 1) (c - 1) d _ (omega arith) (omega arith))

bit_or-zero : (n a : ℕ) → a ≤ n → bit_or a 0 ≡ a
bit_or-zero n zero h = omega (arith, or_lowest 0 0)
bit_or-zero zero (suc a) h = absurd (omega arith)
bit_or-zero (suc n) (suc a) h =
    omega (arith, or_lowest (suc a) 0, bit_or-zero n (suc a / 2) (omega arith))

-- A bit shifted into the byte at the right.
shift_in : (reg v k : ℕ) → u8 (reg <<< 1) ||| to_ℕ (bit k v) ≡ u8 (reg * 2) + v / 2 ^ k % 2
shift_in reg v k = ground (
  arith,
  or_lowest (u8 (reg <<< 1)) 0,
  or_lowest (u8 (reg <<< 1)) 1,
  bit_or-zero (u8 (reg <<< 1) / 2) (u8 (reg <<< 1) / 2) (omega arith),
)

-- Eight pixels that show a byte are read as the byte, six as its low six bits.
pub read_pixels-8 :
    (ram : ℕ → ℕ) (y x v : ℕ)
    → ((d : ℕ) → d < 8 → bw_lcd_read_screen ram (y + 7 - d) x ≡ bit d v)
    → read_pixels ram 8 y x 0 ≡ v % 2 ^ 8
unfolding read_pixels
read_pixels-8 ram y x v shown =
    let at : (c k : ℕ) → c ≡ y + k → k < 8 → bw_lcd_read_screen ram c x ≡ bit (7 - k) v =
      λ c k e lt.
        let column : c ≡ y + 7 - (7 - k) = omega arith in rw column (shown (7 - k) (omega arith)) in
    rw
      (
        at (y) 0 (omega arith) (omega arith),
        shift_in,
        at (y + 1) 1 (omega arith) (omega arith),
        shift_in,
        at (y + 1 + 1) 2 (omega arith) (omega arith),
        shift_in,
        at (y + 1 + 1 + 1) 3 (omega arith) (omega arith),
        shift_in,
        at (y + 1 + 1 + 1 + 1) 4 (omega arith) (omega arith),
        shift_in,
        at (y + 1 + 1 + 1 + 1 + 1) 5 (omega arith) (omega arith),
        shift_in,
        at (y + 1 + 1 + 1 + 1 + 1 + 1) 6 (omega arith) (omega arith),
        shift_in,
        at (y + 1 + 1 + 1 + 1 + 1 + 1 + 1) 7 (omega arith) (omega arith),
        shift_in,
      )
      (omega arith)

pub read_pixels-6 :
    (ram : ℕ → ℕ) (y x v : ℕ)
    → ((d : ℕ) → d < 6 → bw_lcd_read_screen ram (y + 5 - d) x ≡ bit d v)
    → read_pixels ram 6 y x 0 ≡ v % 2 ^ 6
unfolding read_pixels
read_pixels-6 ram y x v shown =
    let at : (c k : ℕ) → c ≡ y + k → k < 6 → bw_lcd_read_screen ram c x ≡ bit (5 - k) v =
      λ c k e lt.
        let column : c ≡ y + 5 - (5 - k) = omega arith in rw column (shown (5 - k) (omega arith)) in
    rw
      (
        at (y) 0 (omega arith) (omega arith),
        shift_in,
        at (y + 1) 1 (omega arith) (omega arith),
        shift_in,
        at (y + 1 + 1) 2 (omega arith) (omega arith),
        shift_in,
        at (y + 1 + 1 + 1) 3 (omega arith) (omega arith),
        shift_in,
        at (y + 1 + 1 + 1 + 1) 4 (omega arith) (omega arith),
        shift_in,
        at (y + 1 + 1 + 1 + 1 + 1) 5 (omega arith) (omega arith),
        shift_in,
      )
      (omega arith)
