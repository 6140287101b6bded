-- ===== src/Hooks.antt =====
-- libz80e/src/debugger/hooks.c: tables of callbacks for memory, registers, ports, execution and the
-- display. `W` is the state that the callbacks share; `data` is part of a callback.
pub mod Slots
pub mod Events
mod Tests
use z80e.Common.{
  ℕ, zero, suc, ◌+◌, ◌%◌, ◌^◌, Bool, true, false, ◌&&◌, List, [], ◌∷◌, Option, none, some, bit_and,
  leb, if◌then◌else◌, to_bool, get_or, set, replicate, u8, u16,
}
use z80e.Hooks.Slots.{claim, reclaim, claim_forgetful}

-- `memory_hook_callback_t` and `port_hook_callback_t`, which differ in the width of the range.
pub record RangeHook (W : Type 0) : Type 0 where
  pub callback : W → ℕ → ℕ → ℕ × W
  pub range_start : ℕ
  pub range_end : ℕ
  pub in_use : Bool

-- `register_hook_callback_t`: `registers` is a set of registers as a mask.
pub record RegisterHook (W : Type 0) : Type 0 where
  pub callback : W → ℕ → ℕ → ℕ × W
  pub registers : ℕ
  pub in_use : Bool

-- `execution_hook_callback_t`.
pub record ExecutionHook (W : Type 0) : Type 0 where
  pub callback : W → ℕ → W
  pub in_use : Bool

-- `lcd_update_callback_t`; `L` is the display that the callback is given.
pub record LcdHook (L W : Type 0) : Type 0 where
  pub callback : W → L → W
  pub in_use : Bool

-- A cleared entry: the null callback is never called.
abbrev pub no_range_hook : {W : Type 0} → RangeHook W
no_range_hook = record {
  callback = λ w place value. (value, w);
  range_start = 0;
  range_end = 0;
  in_use = false;
}

abbrev pub no_register_hook : {W : Type 0} → RegisterHook W
no_register_hook = record { callback = λ w place value. (value, w); registers = 0; in_use = false }

abbrev pub no_execution_hook : {W : Type 0} → ExecutionHook W
no_execution_hook = record { callback = λ w address. w; in_use = false }

abbrev pub no_lcd_hook : {L W : Type 0} → LcdHook L W
no_lcd_hook = record { callback = λ w lcd. w; in_use = false }

-- `struct hook_info`: the arrays; a capacity is the length of its list.
pub record HookInfo (L W : Type 0) : Type 0 where
  pub on_memory_read : List (RangeHook W)
  pub on_memory_write : List (RangeHook W)
  pub on_register_read : List (RegisterHook W)
  pub on_register_write : List (RegisterHook W)
  pub on_port_in : List (RangeHook W)
  pub on_port_out : List (RangeHook W)
  pub on_before_execution : List (ExecutionHook W)
  pub on_after_execution : List (ExecutionHook W)
  pub on_lcd_update : List (LcdHook L W)

unfoldable pub create_hook_set : {L W : Type 0} → HookInfo L W
create_hook_set = record {
  on_memory_read = replicate 10 no_range_hook;
  on_memory_write = replicate 10 no_range_hook;
  on_register_read = replicate 10 no_register_hook;
  on_register_write = replicate 10 no_register_hook;
  on_port_in = replicate 10 no_range_hook;
  on_port_out = replicate 10 no_range_hook;
  on_before_execution = replicate 10 no_execution_hook;
  on_after_execution = replicate 10 no_execution_hook;
  on_lcd_update = replicate 10 no_lcd_hook;
}

module _ {W : Type 0} where
  abbrev pub in_range : ℕ → RangeHook W → Bool
  in_range place cb = cb.in_use && (leb cb.range_start place && leb place cb.range_end)

  -- The loop of `hook_on_memory_read` and `hook_on_memory_write`.
  unfoldable pub hook_on_memory : List (RangeHook W) → W → ℕ → ℕ → ℕ × W
  hook_on_memory [] w address value = (value, w)
  hook_on_memory (cb ∷ cbs) w address value =
      let called = cb.callback w address value in
      if in_range address cb
      then hook_on_memory cbs called.1 address (u8 called.0)
      else hook_on_memory cbs w address value

  -- The loop of `hook_on_port_in` and `hook_on_port_out`.
  unfoldable pub hook_on_port : List (RangeHook W) → W → ℕ → ℕ → ℕ × W
  hook_on_port [] w port value = (value, w)
  hook_on_port (cb ∷ cbs) w port value =
      let called = cb.callback w port value in
      if in_range port cb
      then hook_on_port cbs called.1 port (u8 called.0)
      else hook_on_port cbs w port value

  -- The loop of `hook_on_register_read` and `hook_on_register_write`.
  unfoldable pub hook_on_register : List (RegisterHook W) → W → ℕ → ℕ → ℕ × W
  hook_on_register [] w flags value = (value, w)
  hook_on_register (cb ∷ cbs) w flags value =
      let called = cb.callback w flags value in
      if cb.in_use && to_bool (bit_and cb.registers flags)
      then hook_on_register cbs called.1 flags (u16 called.0)
      else hook_on_register cbs w flags value

  -- The loop of `hook_on_before_execution` and `hook_on_after_execution`.
  unfoldable pub hook_on_execution : List (ExecutionHook W) → W → ℕ → W
  hook_on_execution [] w address = w
  hook_on_execution (cb ∷ cbs) w address =
      hook_on_execution cbs (if cb.in_use then cb.callback w address else w) address

  unfoldable pub hook_on_lcd_update : {L : Type 0} → List (LcdHook L W) → W → L → W
  hook_on_lcd_update [] w lcd = w
  hook_on_lcd_update (cb ∷ cbs) w lcd =
      hook_on_lcd_update cbs (if cb.in_use then cb.callback w lcd else w) lcd

  unfoldable pub hook_add_to_memory_array :
      List (RangeHook W) → ℕ → ℕ → (W → ℕ → ℕ → ℕ × W) → Option (ℕ × List (RangeHook W))
  hook_add_to_memory_array hook address_start address_end callback =
      claim (λ cb. cb.in_use) no_range_hook
        (record {
          callback = callback;
          range_start = u16 address_start;
          range_end = u16 address_end;
          in_use = true;
        })
        hook

  unfoldable pub hook_add_to_port_array :
      List (RangeHook W) → ℕ → ℕ → (W → ℕ → ℕ → ℕ × W) → Option (ℕ × List (RangeHook W))
  hook_add_to_port_array hook range_start range_end callback =
      claim (λ cb. cb.in_use) no_range_hook
        (record {
          callback = callback;
          range_start = u8 range_start;
          range_end = u8 range_end;
          in_use = true;
        })
        hook

  unfoldable pub hook_add_to_register_array :
      List (RegisterHook W) → ℕ → (W → ℕ → ℕ → ℕ × W) → Option (ℕ × List (RegisterHook W))
  hook_add_to_register_array hook flags callback =
      claim (λ cb. cb.in_use) no_register_hook
        (record { callback = callback; registers = flags; in_use = true }) hook

  -- `blocks` is the memory that `realloc` adds: the code clears the first ten entries instead.
  unfoldable pub hook_add_to_execution_array :
      List (List (ExecutionHook W))
      → List (ExecutionHook W)
      → (W → ℕ → W)
      → Option (ℕ × List (ExecutionHook W))
  hook_add_to_execution_array blocks hook callback =
      claim_forgetful (λ cb. cb.in_use) no_execution_hook blocks
        (record { callback = callback; in_use = true }) hook

  unfoldable pub hook_add_lcd_update :
      {L : Type 0} → List (LcdHook L W) → (W → L → W) → Option (ℕ × List (LcdHook L W))
  hook_add_lcd_update hook callback =
      claim (λ cb. cb.in_use) no_lcd_hook (record { callback = callback; in_use = true }) hook

  -- `callbacks[index].flags &= ~IN_USE`, in an array of each kind.
  unfoldable pub hook_remove_range : List (RangeHook W) → ℕ → List (RangeHook W)
  hook_remove_range hook index = reclaim (λ cb. record cb { in_use = false }) hook index

  unfoldable pub hook_remove_register : List (RegisterHook W) → ℕ → List (RegisterHook W)
  hook_remove_register hook index = reclaim (λ cb. record cb { in_use = false }) hook index

  unfoldable pub hook_remove_execution : List (ExecutionHook W) → ℕ → List (ExecutionHook W)
  hook_remove_execution hook index = reclaim (λ cb. record cb { in_use = false }) hook index

  unfoldable pub hook_remove_lcd_update : {L : Type 0} → List (LcdHook L W) → ℕ → List (LcdHook L W)
  hook_remove_lcd_update hook index = reclaim (λ cb. record cb { in_use = false }) hook index
