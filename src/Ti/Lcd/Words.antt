-- ===== src/Ti/Lcd/Words.antt =====
-- A word written to the display through its ports is read back through them.
use z80e.Common.{
  ℕ, ◌+◌, ◌-◌, ◌*◌, ◌%◌, ◌^◌, ◌<◌, ◌≡◌, refl, arith, Bool, false, ◌&&◌, bit_and, ◌==◌, failures,
  no_failure, Bool-cases, inl, inr,
}
use z80e.Ti.Lcd.{
  Lcd, word_of, read_pixels, write_pixels, bw_lcd_status_write, bw_lcd_data_read, bw_lcd_data_write,
  bw_lcd_advance_pointer,
}
use z80e.Ti.Lcd.Pixels.{write_pixels-word, read_pixels-8, read_pixels-6}

row_agrees : ℕ → Bool
row_agrees x =
    bit_and (0x80 + x) 0xc0 == 0x80
    && bit_and (0x80 + x) 0x80 == 0x80
    && bit_and (0x80 + x) 0x3f == x

row_table : failures row_agrees 64 ≡ 0
unfolding failures row_agrees
row_table = refl

column_agrees : ℕ → Bool
column_agrees y =
    bit_and (0x20 + y) 0xc0 == 0
    && bit_and (0x20 + y) 0x80 == 0
    && bit_and (0x20 + y) 0x40 == 0
    && bit_and (0x20 + y) 0x20 == 0x20
    && bit_and (0x20 + y) 0x1f == y

column_table : failures column_agrees 32 ≡ 0
unfolding failures column_agrees
column_table = refl

module _ {H : Type 0} (hook_on_lcd_update : Lcd H → H) where
  to_row :
      (lcd : Lcd H) (x : ℕ)
      → x < 64
      → bw_lcd_status_write hook_on_lcd_update lcd (0x80 + x) ≡ record lcd { x = x }
  unfolding bw_lcd_status_write row_agrees
  to_row lcd x h = let agrees = no_failure row_agrees x h row_table in ground arith

  to_column :
      (lcd : Lcd H) (y : ℕ)
      → y < 32
      → bw_lcd_status_write hook_on_lcd_update lcd (0x20 + y) ≡ record lcd { y = y }
  unfolding bw_lcd_status_write column_agrees
  to_column lcd y h = let agrees = no_failure column_agrees y h column_table in ground arith

  data_write-ram :
      (lcd : Lcd H) (v : ℕ)
      → (bw_lcd_data_write hook_on_lcd_update lcd v).ram
        ≡ (write_pixels
            (word_of lcd)
            0
            (lcd.y * word_of lcd + (word_of lcd - 1))
            lcd.x
            v
            (false, lcd.ram)).1
  unfolding bw_lcd_data_write bw_lcd_advance_pointer
  data_write-ram lcd v = ground arith

  data_write-word_length :
      (lcd : Lcd H) (v : ℕ)
      → (bw_lcd_data_write hook_on_lcd_update lcd v).word_length ≡ lcd.word_length
  unfolding bw_lcd_data_write bw_lcd_advance_pointer
  data_write-word_length lcd v = ground arith

  advance-read_reg : (lcd : Lcd H) → (bw_lcd_advance_pointer lcd).read_reg ≡ lcd.read_reg
  unfolding bw_lcd_advance_pointer
  advance-read_reg lcd = ground arith

  -- The memory of the display after a write shows the value at the word written.
  shown :
      (lcd : Lcd H) (v : ℕ)
      → read_pixels
          (bw_lcd_data_write hook_on_lcd_update lcd v).ram
          (word_of lcd)
          (lcd.y * word_of lcd)
          lcd.x
          0
        ≡ v % 2 ^ word_of lcd
  shown lcd v = elim (Bool-cases lcd.word_length) [
    | inl eight ↦
        rw (data_write-ram lcd v, eight)
          (read_pixels-8 _ (lcd.y * 8) lcd.x v (λ d lt.
            let whole : 0 + d ≡ d = omega arith in
            rw whole at
              (write_pixels-word lcd.x v 8 0 (lcd.y * 8 + 7) d (false, lcd.ram) (omega arith) lt)))
    | inr six ↦
        rw (data_write-ram lcd v, six)
          (read_pixels-6 _ (lcd.y * 6) lcd.x v (λ d lt.
            let whole : 0 + d ≡ d = omega arith in
            rw whole at
              (write_pixels-word lcd.x v 6 0 (lcd.y * 6 + 5) d (false, lcd.ram) (omega arith) lt)))
  ]

  -- After a word is written to the display data port at a row below 64 and a column below 32, and
  -- the row and the column are set again through the status port, the second read of the data port
  -- gives the word: its low eight bits, or its low six in the mode for words of six.
  pub data_read-data_write :
      (lcd : Lcd H) (v : ℕ)
      → lcd.x < 64
      → lcd.y < 32
      → let written = bw_lcd_data_write hook_on_lcd_update lcd v in
        let row = bw_lcd_status_write hook_on_lcd_update written (0x80 + lcd.x) in
        let back = bw_lcd_status_write hook_on_lcd_update row (0x20 + lcd.y) in
        (bw_lcd_data_read (bw_lcd_data_read back).1).0 ≡ v % 2 ^ word_of lcd
  unfolding bw_lcd_data_read
  data_read-data_write lcd v hx hy =
      let written = bw_lcd_data_write hook_on_lcd_update lcd v in
      rw
        (
          to_row written lcd.x hx,
          to_column (record written { x = lcd.x }) lcd.y hy,
          advance-read_reg,
          data_write-word_length lcd v,
        )
        (shown lcd v)
