-- ===== src/Ti/Interrupts.antt =====
-- libz80e/src/ti/hardware/interrupts.c: the interrupt controller, ports 2 to 4, and the pin
-- `interrupt` of the processor. The timers that it starts and the log are left out.
pub mod Laws
use z80e.Common.{
  ℕ, zero, suc, ◌+◌, ◌*◌, ◌/◌, ◌%◌, ◌^◌, Bool, true, false, ◌&&◌, ◌||◌, not, if◌then◌else◌, to_bool,
  ◌==◌, bit, bit_and, ◌|||◌,
}

-- The lines of `interrupted` and of `enabled`.
pub record Lines : Type 0 where
  pub on_key : Bool
  pub first_timer : Bool
  pub second_timer : Bool
  pub link_activity : Bool
  pub first_crystal : Bool
  pub second_crystal : Bool
  pub third_crystal : Bool

-- `ti_interrupts_t` with `asic->cpu->interrupt`, the field `pin`.
pub record Interrupts : Type 0 where
  pub interrupted : Lines
  pub enabled : Lines
  pub on_key_pressed : Bool
  pub low_power_mode : Bool
  pub pin : Bool

-- `flag & INTERRUPT_…`.
abbrev pub has : ℕ → ℕ → Bool
has flag k = to_bool (bit_and flag (2 ^ k))

unfoldable pub any : Lines → Bool
any s =
    s.on_key || s.first_timer || s.second_timer || s.link_activity || s.first_crystal
    || s.second_crystal || s.third_crystal

-- The lines named by a flag.
unfoldable pub lines_of : ℕ → Lines
lines_of flag = record {
  on_key = has flag 0;
  first_timer = has flag 1;
  second_timer = has flag 2;
  link_activity = has flag 4;
  first_crystal = has flag 5;
  second_crystal = has flag 6;
  third_crystal = has flag 7;
}

unfoldable pub both : Lines → Lines → Lines
both s t = record {
  on_key = s.on_key && t.on_key;
  first_timer = s.first_timer && t.first_timer;
  second_timer = s.second_timer && t.second_timer;
  link_activity = s.link_activity && t.link_activity;
  first_crystal = s.first_crystal && t.first_crystal;
  second_crystal = s.second_crystal && t.second_crystal;
  third_crystal = s.third_crystal && t.third_crystal;
}

unfoldable pub either : Lines → Lines → Lines
either s t = record {
  on_key = s.on_key || t.on_key;
  first_timer = s.first_timer || t.first_timer;
  second_timer = s.second_timer || t.second_timer;
  link_activity = s.link_activity || t.link_activity;
  first_crystal = s.first_crystal || t.first_crystal;
  second_crystal = s.second_crystal || t.second_crystal;
  third_crystal = s.third_crystal || t.third_crystal;
}

unfoldable pub except : Lines → Lines → Lines
except s t = record {
  on_key = s.on_key && not t.on_key;
  first_timer = s.first_timer && not t.first_timer;
  second_timer = s.second_timer && not t.second_timer;
  link_activity = s.link_activity && not t.link_activity;
  first_crystal = s.first_crystal && not t.first_crystal;
  second_crystal = s.second_crystal && not t.second_crystal;
  third_crystal = s.third_crystal && not t.third_crystal;
}

abbrev pub no_lines : Lines
no_lines = record {
  on_key = false;
  first_timer = false;
  second_timer = false;
  link_activity = false;
  first_crystal = false;
  second_crystal = false;
  third_crystal = false;
}

-- `init_interrupts`, with `release_on_key`.
abbrev pub init_interrupts : Interrupts
init_interrupts = record {
  interrupted = no_lines;
  enabled = no_lines;
  on_key_pressed = true;
  low_power_mode = false;
  pin = false;
}

unfoldable pub ti_interrupts_check_state : Interrupts → Interrupts
ti_interrupts_check_state t = record t { pin = if not (any t.interrupted) then false else t.pin }

unfoldable pub ti_interrupts_interrupt : Interrupts → ℕ → Interrupts
ti_interrupts_interrupt t flag =
    let raised = both (lines_of flag) t.enabled in
    record t { interrupted = either t.interrupted raised; pin = if any raised then true else t.pin }

unfoldable pub ti_interrupts_set_interrupt_enabled : Interrupts → ℕ → Bool → Interrupts
ti_interrupts_set_interrupt_enabled t flag set_to = record t {
  enabled = if set_to then either t.enabled (lines_of flag) else except t.enabled (lines_of flag);
}

unfoldable pub ti_interrupts_acknowledge_interrupt : Interrupts → ℕ → Interrupts
ti_interrupts_acknowledge_interrupt t flag =
    ti_interrupts_check_state (record t { interrupted = except t.interrupted (lines_of flag) })

unfoldable pub depress_on_key : Interrupts → Interrupts
depress_on_key t = ti_interrupts_interrupt (record t { on_key_pressed = false }) 1

unfoldable pub release_on_key : Interrupts → Interrupts
release_on_key t = record t { on_key_pressed = true }

abbrev pub flag_if : Bool → ℕ → ℕ
flag_if b v = if b then v else 0

-- The lines as a byte, with the bit for the key or for low power.
unfoldable pub lines_byte : Lines → Bool → ℕ
lines_byte s bit_3 =
    flag_if s.on_key 1
    ||| flag_if s.first_timer 2
    ||| flag_if s.second_timer 4
    ||| flag_if bit_3 8
    ||| flag_if s.link_activity 16
    ||| flag_if s.first_crystal 32
    ||| flag_if s.second_crystal 64
    ||| flag_if s.third_crystal 128

-- Port 3.
unfoldable pub read_interrupt_mask : Interrupts → ℕ
read_interrupt_mask t = lines_byte t.enabled t.low_power_mode

unfoldable pub write_interrupt_mask : Interrupts → ℕ → Interrupts
write_interrupt_mask t value = ti_interrupts_check_state (record t {
  interrupted = both t.interrupted (lines_of value);
  enabled = lines_of value;
  low_power_mode = has value 3;
})

-- Port 4.
unfoldable pub read_interrupting_device : Interrupts → ℕ
read_interrupting_device t = lines_byte t.interrupted t.on_key_pressed

-- Port 2.
unfoldable pub write_acknowledged_interrupts : Interrupts → ℕ → Interrupts
write_acknowledged_interrupts t value =
    ti_interrupts_check_state (record t { interrupted = both t.interrupted (lines_of value) })
