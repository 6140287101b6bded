-- ===== src/Ti/Keyboard.antt =====
-- libz80e/src/ti/hardware/keyboard.c: the key matrix and port 1. A key code is the group in the high
-- nibble and the bit in the low one.
pub mod Laws
use z80e.Common.{
  ℕ, zero, suc, ◌+◌, ◌*◌, ◌/◌, ◌%◌, ◌^◌, Bool, true, false, List, [], ◌∷◌, Option, none, some,
  bit_and, ◌|||◌, ltb, ◌==◌, if◌then◌else◌, to_bool, get_or, set, replicate, u8, int_not, ◌<<<◌,
  ◌>>>◌,
}

-- `keyboard_state_t`: eight groups.
pub record Keyboard : Type 0 where
  pub group_mask : ℕ
  pub groups : List ℕ

unfoldable pub init_keyboard : Keyboard
init_keyboard = record { group_mask = 0; groups = replicate 8 0xff }

-- `1 << (keycode & 0xF)` in a byte.
abbrev pub key_mask : ℕ → ℕ
key_mask keycode = u8 (2 ^ bit_and keycode 0xf)

abbrev pub group_at : Keyboard → ℕ → ℕ
group_at state i = get_or state.groups i 0xff

-- A group past the eighth is outside the array.
unfoldable pub depress_key : Keyboard → ℕ → Option Keyboard
depress_key state keycode =
    let group = keycode >>> 4 in
    if ltb group 8
    then some (record state {
      groups =
          set state.groups group (u8 (bit_and (group_at state group) (int_not (key_mask keycode))));
    })
    else none

unfoldable pub release_key : Keyboard → ℕ → Option Keyboard
release_key state keycode =
    let group = keycode >>> 4 in
    if ltb group 8
    then some (record state {
      groups = set state.groups group (group_at state group ||| key_mask keycode);
    })
    else none

-- The loop of `read_keyboard`, from group `n - 1` down to 0.
unfoldable pub read_groups : Keyboard → ℕ → ℕ → ℕ → ℕ
read_groups state zero mask value = value
read_groups state (suc i) mask value =
    let value' = u8 (value ||| int_not (group_at state i)) in
    read_groups state i (u8 (mask <<< 1)) (if to_bool (bit_and mask 0x80) then value' else value)

unfoldable pub read_keyboard : Keyboard → ℕ
read_keyboard state = u8 (int_not (read_groups state 8 state.group_mask 0))

unfoldable pub write_keyboard : Keyboard → ℕ → Keyboard
write_keyboard state value =
    if value == 0xff
    then record state { group_mask = 0 }
    else record state { group_mask = u8 (state.group_mask ||| int_not value) }
