-- ===== src/Ti/Tests/Devices.antt =====
-- The theorems on the display, the keyboard, the link and the timers at concrete inputs.
use z80e.Common.{
  ℕ, zero, suc, ◌*◌, ◌+◌, ◌/◌, ◌^◌, ◌<◌, ◌≡◌, refl, arith, Bool, true, false, not, List, [], ◌∷◌,
  none, some, ◌==◌, bit, length, replicate,
}
use z80e.Ti.Memory.{ti84p}
use z80e.Ti.Lcd.{Lcd, location, bw_lcd_status_write, bw_lcd_data_read, bw_lcd_data_write}
use z80e.Ti.Lcd.Cursor.{CursorFits, lcd-CursorFits}
use z80e.Ti.Lcd.Words.{data_read-data_write}
use z80e.Ti.Keyboard.{Keyboard, group_at, read_keyboard}
use z80e.Ti.Keyboard.Laws.{any_down, read_keyboard-any_down}
use z80e.Ti.Link.{
  Link, init_link, write_link_assist_tx_port, read_link_assist_rx_port, link_recv_ready,
  link_recv_byte, link_read_tx_buffer,
}
use z80e.Ti.Link.Protocol.{
  HandshakesAgree, start, next, write_tx, send, Reachable-HandshakesAgree, read_rx-recv_byte,
  read_tx_buffer-write_tx,
}
use z80e.Ti.Timers.{Doubles, Timer, set_timer_frequency}
use z80e.Ti.Timers.Laws.{set_timer_frequency-length}

-- The state of the hooks is a count of the updates.
abbrev updated : Lcd ℕ → ℕ
updated lcd = lcd.hook + 1

-- A word of six pixels at row 5 and column 7.
abbrev lcd : Lcd ℕ
lcd = record {
  up = true;
  counter = false;
  word_length = false;
  display_on = true;
  op_amp1 = 0;
  op_amp2 = 0;
  x = 5;
  y = 7;
  z = 0;
  contrast = 0;
  read_reg = 0;
  ram = λ _. 0x5a;
  hook = 0;
}

lcd-fits : CursorFits lcd
lcd-fits = record {
  x = omega arith;
  y = omega arith;
  z = omega arith;
  contrast = omega arith;
  op_amp1 = omega arith;
  op_amp2 = omega arith;
}

lcd-CursorFits_example :
    CursorFits (bw_lcd_status_write updated lcd 0xbf)
    × CursorFits (bw_lcd_data_write updated lcd 0xbf)
    × CursorFits (bw_lcd_data_read lcd).1
    × (location (7 * 6 + 2) 5 / 8 < 64 * 120)
lcd-CursorFits_example = lcd-CursorFits updated lcd 0xbf 2 lcd-fits (omega arith)

data_read-data_write_example :
    (bw_lcd_data_read
      (bw_lcd_data_read (
        bw_lcd_status_write updated
          (bw_lcd_status_write updated (bw_lcd_data_write updated lcd 0xe3) 0x85)
          0x27)).1).0
    ≡ 0x23
data_read-data_write_example = data_read-data_write updated lcd 0xe3 (omega arith) (omega arith)

-- The groups 1 and 3 are selected; a key of group 3 is down.
abbrev keyboard : Keyboard
keyboard = record {
  group_mask = 10;
  groups = 0xff ∷ 0xff ∷ 0xfe ∷ 0xdf ∷ 0xff ∷ 0xff ∷ 0xff ∷ 0xff ∷ [];
}

keyboard-bytes : (i : ℕ) → group_at keyboard i < 2 ^ 8
keyboard-bytes zero = omega arith
keyboard-bytes (suc zero) = omega arith
keyboard-bytes (suc (suc zero)) = omega arith
keyboard-bytes (suc (suc (suc zero))) = omega arith
keyboard-bytes (suc (suc (suc (suc zero)))) = omega arith
keyboard-bytes (suc (suc (suc (suc (suc zero))))) = omega arith
keyboard-bytes (suc (suc (suc (suc (suc (suc zero)))))) = omega arith
keyboard-bytes (suc (suc (suc (suc (suc (suc (suc zero))))))) = omega arith
keyboard-bytes (suc (suc (suc (suc (suc (suc (suc (suc i)))))))) = omega arith

read_keyboard-any_down_example : bit 5 (read_keyboard keyboard) ≡ not (any_down keyboard 5 8)
read_keyboard-any_down_example = read_keyboard-any_down keyboard keyboard-bytes 5 (omega arith)

key_is_down : any_down keyboard 5 8 ≡ true
unfolding any_down
key_is_down = refl

abbrev sending : Link
sending = write_link_assist_tx_port init_link 0x41

Reachable-HandshakesAgree_example : HandshakesAgree (link_read_tx_buffer sending false).1.status
Reachable-HandshakesAgree_example =
    Reachable-HandshakesAgree {device = ti84p}
      (next (next (start false) (write_tx init_link false 0x41)) (send sending false))

read_rx-recv_byte_case :
    ((link_recv_byte init_link true 0x41).0 ≡ true)
    × ((link_recv_byte (link_recv_byte init_link true 0x41).1 false 0x42)
        ≡ (false, (link_recv_byte init_link true 0x41).1, false))
    × ((read_link_assist_rx_port ti84p (link_recv_byte init_link true 0x41).1 false).0 ≡ 0x41)
    × (link_recv_ready
          (read_link_assist_rx_port ti84p (link_recv_byte init_link true 0x41).1 false).1
        ≡ true)
read_rx-recv_byte_case = read_rx-recv_byte ti84p init_link true false 0x41 0x42 refl refl

read_tx_buffer-write_tx_example :
    (write_link_assist_tx_port sending 0x42 ≡ sending)
    × ((link_read_tx_buffer sending false).0 ≡ some 0x41)
    × ((link_read_tx_buffer (link_read_tx_buffer sending false).1 false).0 ≡ none)
read_tx_buffer-write_tx_example = read_tx_buffer-write_tx init_link false 0x41 0x42 refl

-- Frequencies in hundredths, as natural numbers.
abbrev pub hundredths : Doubles ℕ
hundredths = record {
  hundredths = λ n. n;
  is_zero = λ f. f == 0;
  period = λ rate f. rate * 100 / f;
  rescaled = λ new_rate cycles f. new_rate / (cycles * f);
}

abbrev timers : List (Timer ℕ Bool)
timers =
    replicate 2 (record { cycles_until_tick = 9; flags = 1; frequency = 51200; on_tick = true })

set_timer_frequency-length_case :
    (id : ℕ) × (timers' : List (Timer ℕ Bool)) × (set_timer_frequency hundredths false 6000000 true
        (some 1)
        22755
        timers
      ≡ some (some id, timers'))
    × (length timers' ≡ 2)
    × (id < length timers')
set_timer_frequency-length_case =
    set_timer_frequency-length hundredths false 6000000 true 1 22755 timers refl (omega arith)
