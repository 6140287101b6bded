-- ===== src/Ti/Interrupts/Laws.antt =====
-- The pin of the processor and the lines; what the ports read back.
use z80e.Common.{
  ℕ, ◌^◌, ◌<◌, ◌≡◌, refl, ◌∙◌, arith, Bool, true, false, ◌||◌, not, if◌then◌else◌, bit, bit_and,
  ◌|||◌, bit-bit_or, bit-bit_and, bit_and-le, same_bits, bit_or-lt, mask-bit,
}
use z80e.Core.Flags.Laws.{bit-if}
use z80e.Ti.Interrupts.{
  Lines, Interrupts, any, has, lines_of, both, either, except, lines_byte, flag_if, init_interrupts,
  ti_interrupts_check_state, ti_interrupts_interrupt, ti_interrupts_set_interrupt_enabled,
  ti_interrupts_acknowledge_interrupt, depress_on_key, release_on_key, read_interrupt_mask,
  write_interrupt_mask, read_interrupting_device, write_acknowledged_interrupts,
}

-- One call of the controller: by a device, by the keyboard, or by a write to port 2 or 3.
pub data Step : Interrupts → Interrupts → Type 0 where
  interrupt : (t : Interrupts) (flag : ℕ) → Step t (ti_interrupts_interrupt t flag)
  set_enabled :
      (t : Interrupts) (flag : ℕ) (set_to : Bool)
      → Step t (ti_interrupts_set_interrupt_enabled t flag set_to)
  acknowledge : (t : Interrupts) (flag : ℕ) → Step t (ti_interrupts_acknowledge_interrupt t flag)
  depress : (t : Interrupts) → Step t (depress_on_key t)
  release : (t : Interrupts) → Step t (release_on_key t)
  write_mask : (t : Interrupts) (value : ℕ) → Step t (write_interrupt_mask t value)
  write_acknowledged : (t : Interrupts) (value : ℕ) → Step t (write_acknowledged_interrupts t value)

-- What the calls reach from the controller as `init_interrupts` makes it.
pub data Reachable : Interrupts → Type 0 where
  start : Reachable init_interrupts
  next : {s t : Interrupts} → Reachable s → Step s t → Reachable t

any-either : (s t : Lines) → any (either s t) ≡ (any s || any t)
unfolding any either
any-either s t = ground arith

any-both : (s t : Lines) → any (both s t) ≡ true → any s ≡ true
unfolding any both
any-both s t h = ground arith

any-except : (s t : Lines) → any (except s t) ≡ true → any s ≡ true
unfolding any except
any-except s t h = ground arith

-- Fewer lines and a check of the state keep the pin and the lines together.
check_state-any :
    (t : Interrupts) (s : Lines)
    → t.pin ≡ any t.interrupted
    → (any s ≡ true → any t.interrupted ≡ true)
    → (if not (any s) then false else t.pin) ≡ any s
check_state-any t s h fewer = ground (arith, fewer)

any_none : false ≡ any init_interrupts.interrupted
unfolding any
any_none = refl

-- In every state that the calls and port writes of the interrupt controller alone reach from its
-- start, the interrupt pin of the processor is set exactly when some interrupt line is. The writes of
-- the same pin by the link port and by the crystal timers are not among them.
pub pin-any : {t : Interrupts} → Reachable t → t.pin ≡ any t.interrupted
unfolding ti_interrupts_check_state ti_interrupts_interrupt ti_interrupts_set_interrupt_enabled
    ti_interrupts_acknowledge_interrupt depress_on_key release_on_key write_interrupt_mask
    write_acknowledged_interrupts
pin-any start = any_none
pin-any (next r (interrupt t flag)) =
    ground (arith, pin-any r, any-either t.interrupted (both (lines_of flag) t.enabled))
pin-any (next r (set_enabled t flag set_to)) = pin-any r
pin-any (next r (acknowledge t flag)) =
    check_state-any t _ (pin-any r) (any-except t.interrupted (lines_of flag))
pin-any (next r (depress t)) =
    ground (arith, pin-any r, any-either t.interrupted (both (lines_of 1) t.enabled))
pin-any (next r (release t)) = pin-any r
pin-any (next r (write_mask t value)) =
    check_state-any t _ (pin-any r) (any-both t.interrupted (lines_of value))
pin-any (next r (write_acknowledged t value)) =
    check_state-any t _ (pin-any r) (any-both t.interrupted (lines_of value))

-- Each bit of the byte is the line at its place.
bits-lines_byte :
    (s : Lines) (b : Bool)
    → (bit 0 (lines_byte s b) ≡ s.on_key)
      × (bit 1 (lines_byte s b) ≡ s.first_timer)
      × (bit 2 (lines_byte s b) ≡ s.second_timer)
      × (bit 3 (lines_byte s b) ≡ b)
      × (bit 4 (lines_byte s b) ≡ s.link_activity)
      × (bit 5 (lines_byte s b) ≡ s.first_crystal)
      × (bit 6 (lines_byte s b) ≡ s.second_crystal)
      × (bit 7 (lines_byte s b) ≡ s.third_crystal)
unfolding lines_byte
bits-lines_byte s b = (
  simp (bit-bit_or, bit-if) (ground arith),
  simp (bit-bit_or, bit-if) (ground arith),
  simp (bit-bit_or, bit-if) (ground arith),
  simp (bit-bit_or, bit-if) (ground arith),
  simp (bit-bit_or, bit-if) (ground arith),
  simp (bit-bit_or, bit-if) (ground arith),
  simp (bit-bit_or, bit-if) (ground arith),
  simp (bit-bit_or, bit-if) (ground arith),
)

flag_if-lt : (b : Bool) (v : ℕ) → v < 2 ^ 8 → flag_if b v < 2 ^ 8
flag_if-lt b v h = ground arith

lines_byte-lt : (s : Lines) (b : Bool) → lines_byte s b < 2 ^ 8
unfolding lines_byte
lines_byte-lt s b =
    (bit_or-lt 8 _ _
      (bit_or-lt 8 _ _
        (bit_or-lt 8 _ _
          (bit_or-lt 8 _ _
            (bit_or-lt 8 _ _
              (bit_or-lt 8 _ _
                (bit_or-lt 8 _ _ (flag_if-lt s.on_key 1 (omega arith))
                  (flag_if-lt s.first_timer 2 (omega arith)))
                (flag_if-lt s.second_timer 4 (omega arith)))
              (flag_if-lt b 8 (omega arith)))
            (flag_if-lt s.link_activity 16 (omega arith)))
          (flag_if-lt s.first_crystal 32 (omega arith)))
        (flag_if-lt s.second_crystal 64 (omega arith)))
      (flag_if-lt s.third_crystal 128 (omega arith)))

-- What is written to port 3 is read back from it, for every byte.
pub read_interrupt_mask-write_interrupt_mask :
    (t : Interrupts) (value : ℕ)
    → value < 2 ^ 8
    → read_interrupt_mask (write_interrupt_mask t value) ≡ value
unfolding read_interrupt_mask write_interrupt_mask ti_interrupts_check_state lines_of
read_interrupt_mask-write_interrupt_mask t value h =
    let (e₀, e₁, e₂, e₃, e₄, e₅, e₆, e₇) = bits-lines_byte (lines_of value) (has value 3) in
    same_bits _ value (lines_byte-lt (lines_of value) (has value 3)) h (e₀ ∙ mask-bit 0 value)
      (e₁ ∙ mask-bit 1 value) (e₂ ∙ mask-bit 2 value) (e₃ ∙ mask-bit 3 value)
      (e₄ ∙ mask-bit 4 value) (e₅ ∙ mask-bit 5 value) (e₆ ∙ mask-bit 6 value)
      (e₇ ∙ mask-bit 7 value)

-- A write to port 2 keeps, of the lines that port 4 shows, those whose bits are set in the value;
-- bit 3, the state of the key, does not change.
pub read_interrupting_device-write_acknowledged_interrupts :
    (t : Interrupts) (value : ℕ)
    → read_interrupting_device (write_acknowledged_interrupts t value)
      ≡ bit_and (read_interrupting_device t) (value ||| 8)
unfolding read_interrupting_device write_acknowledged_interrupts ti_interrupts_check_state lines_of
    both
read_interrupting_device-write_acknowledged_interrupts t value =
    let (e₀, e₁, e₂, e₃, e₄, e₅, e₆, e₇) = bits-lines_byte t.interrupted t.on_key_pressed in
    let (f₀, f₁, f₂, f₃, f₄, f₅, f₆, f₇) =
      bits-lines_byte (both t.interrupted (lines_of value)) t.on_key_pressed in
    same_bits _ _ (lines_byte-lt _ t.on_key_pressed)
      (omega (
        arith,
        bit_and-le (lines_byte t.interrupted t.on_key_pressed) (value ||| 8),
        lines_byte-lt t.interrupted t.on_key_pressed,
      ))
      (f₀ ∙ rw (bit-bit_and, e₀, bit-bit_or, mask-bit 0 value) (ground arith))
      (f₁ ∙ rw (bit-bit_and, e₁, bit-bit_or, mask-bit 1 value) (ground arith))
      (f₂ ∙ rw (bit-bit_and, e₂, bit-bit_or, mask-bit 2 value) (ground arith))
      (f₃ ∙ rw (bit-bit_and, e₃, bit-bit_or) (ground arith))
      (f₄ ∙ rw (bit-bit_and, e₄, bit-bit_or, mask-bit 4 value) (ground arith))
      (f₅ ∙ rw (bit-bit_and, e₅, bit-bit_or, mask-bit 5 value) (ground arith))
      (f₆ ∙ rw (bit-bit_and, e₆, bit-bit_or, mask-bit 6 value) (ground arith))
      (f₇ ∙ rw (bit-bit_and, e₇, bit-bit_or, mask-bit 7 value) (ground arith))
