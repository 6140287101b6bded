-- ===== src/Ti/Lcd.antt =====
-- libz80e/src/ti/hardware/t6a04.c: the display controller on ports 0x10 and 0x11. The callbacks of
-- the display hook are a parameter that changes a state `H` of its own.
pub mod Cursor
pub mod Pixels
pub mod Words
use z80e.Common.{
  ℕ, zero, suc, ◌+◌, ◌-◌, ◌*◌, ◌/◌, ◌%◌, ◌^◌, Bool, true, false, not, ◌&&◌, ◌||◌, bit_and, ◌|||◌,
  ltb, ◌==◌, ◌!=◌, if◌then◌else◌, with_bit, to_ℕ, to_bool, u8, int_not, ◌<<<◌, ◌>>>◌,
}

-- `ti_bw_lcd_t`: `x` is the row, `y` the column of words.
pub record Lcd (H : Type 0) : Type 0 where
  pub up : Bool
  pub counter : Bool
  pub word_length : Bool
  pub display_on : Bool
  pub op_amp1 : ℕ
  pub op_amp2 : ℕ
  pub x : ℕ
  pub y : ℕ
  pub z : ℕ
  pub contrast : ℕ
  pub read_reg : ℕ
  pub ram : ℕ → ℕ
  pub hook : H

-- The place of a pixel in the memory of the display, in bits.
abbrev pub location : ℕ → ℕ → ℕ
location y x = x * 120 + y

unfoldable pub bw_lcd_read_screen : (ℕ → ℕ) → ℕ → ℕ → Bool
bw_lcd_read_screen ram y x = to_bool (bit_and (ram (location y x >>> 3)) (2 ^ (location y x % 8)))

-- The result is whether the byte changed.
unfoldable pub bw_lcd_write_screen : (ℕ → ℕ) → ℕ → ℕ → Bool → Bool × (ℕ → ℕ)
bw_lcd_write_screen ram y x val =
    let i = location y x >>> 3 in
    let new = with_bit (ram i) (location y x % 8) val in
    (ram i != new, λ j. if j == i then new else ram j)

-- The loop of `bw_lcd_data_read`: `n` pixels from column `y` on, shifted into a byte.
unfoldable pub read_pixels : (ℕ → ℕ) → ℕ → ℕ → ℕ → ℕ → ℕ
read_pixels ram zero y x reg = reg
read_pixels ram (suc n) y x reg =
    read_pixels ram n (y + 1) x (u8 (reg <<< 1) ||| to_ℕ (bw_lcd_read_screen ram y x))

-- The loop of `bw_lcd_data_write`: bits `i` to `i + n - 1`, from column `y` to the left.
unfoldable pub write_pixels : ℕ → ℕ → ℕ → ℕ → ℕ → Bool × (ℕ → ℕ) → Bool × (ℕ → ℕ)
write_pixels zero i y x val done = done
write_pixels (suc n) i y x val done =
    let written = bw_lcd_write_screen done.1 y x (to_bool (bit_and val (2 ^ i))) in
    write_pixels n (i + 1) (y - 1) x val (done.0 || written.0, written.1)

module _ {H : Type 0} where
  unfoldable pub bw_lcd_reset : Lcd H → Lcd H
  bw_lcd_reset lcd = record lcd {
    display_on = false;
    word_length = true;
    up = true;
    counter = false;
    y = 0;
    z = 0;
    x = 0;
    contrast = 0;
    op_amp1 = 0;
    op_amp2 = 0;
  }

  -- `word_length ? 8 : 6`.
  abbrev pub word_of : Lcd H → ℕ
  word_of lcd = if lcd.word_length then 8 else 6

  unfoldable pub bw_lcd_status_read : Lcd H → ℕ
  bw_lcd_status_read lcd =
      to_ℕ lcd.word_length <<< 6
      ||| to_ℕ lcd.display_on <<< 5
      ||| to_ℕ lcd.counter <<< 1
      ||| to_ℕ lcd.up

  unfoldable pub bw_lcd_advance_pointer : Lcd H → Lcd H
  bw_lcd_advance_pointer lcd =
      let max_x = if lcd.word_length then 15 else 20 in
      if lcd.counter
      then (if not lcd.up
          then record lcd { y = if lcd.y == 0 then max_x - 1 else lcd.y - 1 }
          else record lcd { y = (if lcd.y + 1 == max_x then 0 else lcd.y + 1) % 32 })
      else (if not lcd.up
          then record lcd { x = if lcd.x == 0 then 63 else lcd.x - 1 }
          else record lcd { x = (lcd.x + 1) % 64 })

  unfoldable pub bw_lcd_data_read : Lcd H → ℕ × Lcd H
  bw_lcd_data_read lcd =
      let new = read_pixels lcd.ram (word_of lcd) (lcd.y * word_of lcd) lcd.x 0 in
      (lcd.read_reg, bw_lcd_advance_pointer (record lcd { read_reg = new }))

  module _ (hook_on_lcd_update : Lcd H → H) where
    unfoldable pub bw_lcd_status_write : Lcd H → ℕ → Lcd H
    bw_lcd_status_write lcd val =
        if bit_and val 0xc0 == 0xc0
        then record lcd { contrast = bit_and val 0x3f }
        else if to_bool (bit_and val 0x80)
        then record lcd { x = bit_and val 0x3f }
        else if to_bool (bit_and val 0x40)
        then record lcd { z = bit_and val 0x3f }
        else if to_bool (bit_and val 0x20)
        then record lcd { y = bit_and val 0x1f }
        else if bit_and val 0x18 == 0x18
        then lcd
        else if to_bool (bit_and val 0x10)
        then record lcd { op_amp1 = bit_and val 3 }
        else if to_bool (bit_and val 0x08)
        then record lcd { op_amp2 = bit_and val 3 }
        else if to_bool (bit_and val 0x04)
        then record lcd { counter = to_bool (bit_and val 2); up = to_bool (bit_and val 1) }
        else if to_bool (bit_and val 0x02)
        then (let on : Lcd H = record lcd { display_on = to_bool (bit_and val 1) } in
            record on { hook = hook_on_lcd_update on })
        else record lcd { word_length = to_bool (bit_and val 1) }

    unfoldable pub bw_lcd_data_write : Lcd H → ℕ → Lcd H
    bw_lcd_data_write lcd val =
        let (dirty, ram) =
          write_pixels (word_of lcd) 0 (lcd.y * word_of lcd + (word_of lcd - 1)) lcd.x val
            (false, lcd.ram) in
        let moved = bw_lcd_advance_pointer (record lcd { ram = ram }) in
        if dirty then record moved { hook = hook_on_lcd_update moved } else moved

-- `setup_lcd_display`: the loops clear every pixel, which are the first 960 bytes; the other bytes
-- and the register for reads are as `malloc` gives them.
unfoldable pub setup_lcd_display : {H : Type 0} → (ℕ → ℕ) → ℕ → H → Lcd H
setup_lcd_display fresh read_reg hook = bw_lcd_reset (record {
  up = false;
  counter = false;
  word_length = false;
  display_on = false;
  op_amp1 = 0;
  op_amp2 = 0;
  x = 0;
  y = 0;
  z = 0;
  contrast = 0;
  read_reg = read_reg;
  ram = λ j. if ltb j 960 then 0 else fresh j;
  hook = hook;
})
