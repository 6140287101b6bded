-- ===== src/Ti/Lcd/Cursor.antt =====
-- Where the cursor of the display can stand, and that no access leaves the memory of the display.
use z80e.Common.{ℕ, ◌+◌, ◌-◌, ◌*◌, ◌/◌, ◌<◌, arith, false, bit_and-le_right}
use z80e.Ti.Lcd.{
  Lcd, location, word_of, bw_lcd_status_write, bw_lcd_data_read, bw_lcd_data_write,
  bw_lcd_advance_pointer, write_pixels,
}

pub record CursorFits {H : Type 0} (lcd : Lcd H) : Type 0 where
  pub x : lcd.x < 64
  pub y : lcd.y < 32
  pub z : lcd.z < 64
  pub contrast : lcd.contrast < 64
  pub op_amp1 : lcd.op_amp1 < 4
  pub op_amp2 : lcd.op_amp2 < 4

module _ {H : Type 0} where
  advance-CursorFits : (lcd : Lcd H) → CursorFits lcd → CursorFits (bw_lcd_advance_pointer lcd)
  unfolding bw_lcd_advance_pointer
  advance-CursorFits lcd h = record {
    x = ground arith;
    y = ground arith;
    z = ground arith;
    contrast = ground arith;
    op_amp1 = ground arith;
    op_amp2 = ground arith;
  }

  pub data_read-CursorFits : (lcd : Lcd H) → CursorFits lcd → CursorFits (bw_lcd_data_read lcd).1
  unfolding bw_lcd_data_read
  data_read-CursorFits lcd h = advance-CursorFits _ (record {
    x = h.x;
    y = h.y;
    z = h.z;
    contrast = h.contrast;
    op_amp1 = h.op_amp1;
    op_amp2 = h.op_amp2;
  })

module _ {H : Type 0} (hook_on_lcd_update : Lcd H → H) where
  pub status_write-CursorFits :
      (lcd : Lcd H) (val : ℕ)
      → CursorFits lcd
      → CursorFits (bw_lcd_status_write hook_on_lcd_update lcd val)
  unfolding bw_lcd_status_write
  status_write-CursorFits lcd val h = record {
    x = ground (arith, bit_and-le_right val 0x3f);
    y = ground (arith, bit_and-le_right val 0x1f);
    z = ground (arith, bit_and-le_right val 0x3f);
    contrast = ground (arith, bit_and-le_right val 0x3f);
    op_amp1 = ground (arith, bit_and-le_right val 3);
    op_amp2 = ground (arith, bit_and-le_right val 3);
  }

  pub data_write-CursorFits :
      (lcd : Lcd H) (val : ℕ)
      → CursorFits lcd
      → CursorFits (bw_lcd_data_write hook_on_lcd_update lcd val)
  unfolding bw_lcd_data_write
  data_write-CursorFits lcd val h =
      let word = word_of lcd in
      let written = write_pixels word 0 (lcd.y * word + (word - 1)) lcd.x val (false, lcd.ram) in
      let moved =
        advance-CursorFits (record lcd { ram = written.1 })
          (record {
            x = h.x;
            y = h.y;
            z = h.z;
            contrast = h.contrast;
            op_amp1 = h.op_amp1;
            op_amp2 = h.op_amp2;
          }) in
      record {
        x = ground (arith, moved.x);
        y = ground (arith, moved.y);
        z = ground (arith, moved.z);
        contrast = ground (arith, moved.contrast);
        op_amp1 = ground (arith, moved.op_amp1);
        op_amp2 = ground (arith, moved.op_amp2);
      }

  -- While the row is below 64, the column below 32 and the other registers of the display within
  -- their widths, every access of its ports keeps them so, and the pixels of the word at the cursor
  -- lie in the memory of the display.
  pub lcd-CursorFits :
      (lcd : Lcd H) (val k : ℕ)
      → CursorFits lcd
      → k < word_of lcd
      → CursorFits (bw_lcd_status_write hook_on_lcd_update lcd val)
        × CursorFits (bw_lcd_data_write hook_on_lcd_update lcd val)
        × CursorFits (bw_lcd_data_read lcd).1
        × (location (lcd.y * word_of lcd + k) lcd.x / 8 < 64 * 120)
  lcd-CursorFits lcd val k h hk = (
    status_write-CursorFits lcd val h,
    data_write-CursorFits lcd val h,
    data_read-CursorFits lcd h,
    ground (arith, h.x, h.y),
  )
