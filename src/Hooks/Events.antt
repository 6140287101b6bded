-- ===== src/Hooks/Events.antt =====
-- What an event does with the hooks of its table.
use z80e.Common.{
  ℕ, zero, suc, ◌≡◌, ◌≤◌, refl, arith, true, false, List, [], ◌∷◌, some, Bool-cases, inl, inr,
  replicate, u8, u16,
}
use z80e.Hooks.{
  RangeHook, no_range_hook, in_range, hook_on_memory, hook_add_to_memory_array, hook_remove_range,
}
use z80e.Hooks.Slots.{claim, reclaim}

module _ {W : Type 0} where
  -- An event at an address concerns a hook that is in use and whose range holds the address.
  pub record IsConcerned (address : ℕ) (cb : RangeHook W) : Type 0 where
    pub in_use : cb.in_use ≡ true
    pub from_start : cb.range_start ≤ address
    pub to_end : address ≤ cb.range_end

  -- What an event may do with a table: each hook that it concerns is called, in order, with the value
  -- and the state that the call before left; the others are passed.
  pub data Calls (address : ℕ) : List (RangeHook W) → W → ℕ → ℕ × W → Type 0 where
    finished : {w : W} {value : ℕ} → Calls address [] w value (value, w)
    called :
        {cb : RangeHook W} {cbs : List (RangeHook W)} {w : W} {value : ℕ} {result : ℕ × W}
        → IsConcerned address cb
        → Calls address cbs
            (cb.callback w address value).1
            (u8 (cb.callback w address value).0)
            result
        → Calls address (cb ∷ cbs) w value result
    passed :
        {cb : RangeHook W} {cbs : List (RangeHook W)} {w : W} {value : ℕ} {result : ℕ × W}
        → ¬ IsConcerned address cb
        → Calls address cbs w value result
        → Calls address (cb ∷ cbs) w value result

  in_range-IsConcerned :
      (address : ℕ) (cb : RangeHook W) → in_range address cb ≡ true → IsConcerned address cb
  in_range-IsConcerned address cb h = record {
    in_use = ground arith;
    from_start = ground arith;
    to_end = ground arith;
  }

  out_of_range :
      (address : ℕ) (cb : RangeHook W) → in_range address cb ≡ false → ¬ IsConcerned address cb
  out_of_range address cb h concerned =
      let used = concerned.in_use in
      let from_start = concerned.from_start in let to_end = concerned.to_end in ground arith

  -- A memory access calls exactly the hooks in use whose range, both ends included, holds the
  -- address, in the order of the table, each with the value that the one before it returned, cut to
  -- a byte.
  pub hook_on_memory-Calls :
      (cbs : List (RangeHook W)) (w : W) (address value : ℕ)
      → Calls address cbs w value (hook_on_memory cbs w address value)
  unfolding hook_on_memory
  hook_on_memory-Calls [] w address value = finished
  hook_on_memory-Calls (cb ∷ cbs) w address value = elim (Bool-cases (in_range address cb)) [
    | inl inside ↦
        rw (inside, hook_on_memory)
          (called (in_range-IsConcerned address cb inside) (hook_on_memory-Calls cbs _ address _))
    | inr outside ↦
        rw (outside, hook_on_memory)
          (passed (out_of_range address cb outside) (hook_on_memory-Calls cbs w address value))
  ]

  module _ (start end : ℕ) (callback : W → ℕ → ℕ → ℕ × W) where
    abbrev added : RangeHook W
    added = record { callback = callback; range_start = start; range_end = end; in_use = true }

    silent :
        (n : ℕ) (w : W) (address value : ℕ)
        → hook_on_memory (replicate n no_range_hook) w address value ≡ (value, w)
    unfolding hook_on_memory
    silent zero w address value = refl
    silent (suc n) w address value = silent n w address value

    Same : List (RangeHook W) → List (RangeHook W) → Type 0
    Same xs ys =
        (w : W) (address value : ℕ)
        → hook_on_memory xs w address value ≡ hook_on_memory ys w address value

    Same-head : (s : RangeHook W) (xs ys : List (RangeHook W)) → Same xs ys → Same (s ∷ xs) (s ∷ ys)
    unfolding Same hook_on_memory
    Same-head s xs ys h w address value = elim (Bool-cases (in_range address s)) [
      | inl inside ↦ rw inside (h _ address _)
      | inr outside ↦ rw outside (h w address value)
    ]

    -- An entry that is free again in the place of a free entry.
    Same-free :
        (s : RangeHook W) (ss : List (RangeHook W))
        → s.in_use ≡ false
        → Same (record added { in_use = false } ∷ ss) (s ∷ ss)
    unfolding Same hook_on_memory
    Same-free s ss free w address value = rw free refl

    last : Same (record added { in_use = false } ∷ replicate 9 no_range_hook) []
    unfolding Same hook_on_memory
    last w address value = silent 9 w address value

    -- The table after an entry is claimed and freed again calls what the table before calls.
    claim_and_free :
        (s : RangeHook W) (ss : List (RangeHook W))
        → (i : ℕ) × (table : List (RangeHook W)) × (claim
              (λ cb. cb.in_use)
              no_range_hook
              added
              (s ∷ ss)
            ≡ some (i, table))
          × Same (hook_remove_range table i) (s ∷ ss)
    unfolding claim hook_remove_range reclaim
    claim_and_free s [] = elim (Bool-cases s.in_use) [
      | inl used ↦ (1, s ∷ added ∷ replicate 9 no_range_hook, simp used, Same-head s _ [] last)
      | inr free ↦ (0, added ∷ [], rw free refl, Same-free s [] free)
    ]
    claim_and_free s (t ∷ ss) = elim (Bool-cases s.in_use) [
      | inl used ↦
          let (i, table, e, same) = claim_and_free t ss in
          (suc i, s ∷ table, simp (used, e), Same-head s _ (t ∷ ss) same)
      | inr free ↦ (0, added ∷ t ∷ ss, rw free refl, Same-free s (t ∷ ss) free)
    ]

  -- Adding a memory hook to a table with at least one entry succeeds, and removing it again at the
  -- index returned leaves a table that answers every access as the table before did.
  pub hook_remove-hook_add :
      (address_start address_end : ℕ) (callback : W → ℕ → ℕ → ℕ × W) (s : RangeHook W)
      (ss : List (RangeHook W))
      → (i : ℕ) × (table : List (RangeHook W)) × (hook_add_to_memory_array
            (s ∷ ss)
            address_start
            address_end
            callback
          ≡ some (i, table))
        × ((w : W) (address value : ℕ)
            → hook_on_memory (hook_remove_range table i) w address value
              ≡ hook_on_memory (s ∷ ss) w address value)
  unfolding hook_add_to_memory_array Same
  hook_remove-hook_add address_start address_end callback s ss =
      claim_and_free (u16 address_start) (u16 address_end) callback s ss
