-- ===== src/Disassembler/SourceMap.antt =====
-- The source maps and the symbols of loaded objects, and the thread that an address belongs to. The records have the
-- fields of the assembler's objects that the code reads.
use Prim.Native.String.{String}
use z80e.Common.{
  ℕ, zero, suc, ◌+◌, ◌-◌, ◌*◌, ◌^◌, Bool, true, false, List, [], ◌∷◌, Option, none, some, ◌|||◌,
  ◌<<<◌, ltb, leb, ◌==◌, ◌&&◌, ◌||◌, if◌then◌else◌, u8, u16, length,
}

pub record SourceMapEntry : Type 0 where
  pub address : ℕ
  pub length : ℕ
  pub line_number : ℕ
  pub source_code : List ℕ

pub record SourceMap : Type 0 where
  pub file_name : String
  pub entries : List SourceMapEntry

-- A symbol's name is the codes of its letters.
pub record Symbol : Type 0 where
  pub name : List ℕ
  pub value : ℕ

pub record Area : Type 0 where
  pub symbols : List Symbol
  pub source_map : List SourceMap

pub record Object : Type 0 where
  pub areas : List Area

abbrev pub is_space : ℕ → Bool
is_space c = c == 32 || leb 9 c && leb c 13

-- `while (*code && isspace(*code)) code++`.
unfoldable pub skip_spaces : List ℕ → List ℕ
skip_spaces [] = []
skip_spaces (c ∷ code) = let rest = skip_spaces code in if is_space c then rest else c ∷ code

-- The first that a search finds.
unfoldable pub first_of : {A B : Type 0} → (A → Option B) → List A → Option B
first_of search [] = none
first_of search (a ∷ rest) =
    let later = first_of search rest in elim (search a) [ none ↦ later | some b ↦ some b ]

-- `tolower` of ASCII.
abbrev pub lower : ℕ → ℕ
lower c = if leb 65 c && leb c 90 then c + 32 else c

-- `strncasecmp(prefix, name, strlen(prefix)) == 0`.
unfoldable pub begins : List ℕ → List ℕ → Bool
begins [] name = true
begins (c ∷ prefix) [] = false
begins (c ∷ prefix) (d ∷ name) = let rest = begins prefix name in lower c == lower d && rest

module _ (read_byte : ℕ → ℕ) where
  abbrev pub word_at : ℕ → ℕ
  word_at address = u16 (u8 (read_byte (u16 address)) ||| u8 (read_byte (u16 (address + 1))) <<< 8)

  -- The loop over the thread table, from thread `i` on, for `n` threads.
  unfoldable pub find_offset : ℕ → ℕ → ℕ → ℕ
  find_offset zero i current = 0
  find_offset (suc n) i current =
      let offs = u16 (0x8000 + i * 8) in
      let addr = word_at (offs + 1) in
      let len = word_at (addr + (2 ^ 16 - 2)) in
      let rest = find_offset n (i + 1) current in
      if leb addr current && ltb current (addr + len) then addr else rest

  unfoldable pub thread_offset : ℕ → ℕ
  thread_offset current =
      if ltb 0x8000 current then find_offset (u8 (read_byte 0x8201)) 0 current else 0

  unfoldable pub find_entry : ℕ → ℕ → SourceMap → Option (SourceMap × SourceMapEntry)
  find_entry offset current map =
      first_of (λ entry. if entry.address + offset == current then some (map, entry) else none)
        map.entries

  unfoldable pub try_from_sourcemap : List Object → ℕ → Option (SourceMap × SourceMapEntry)
  try_from_sourcemap objects current =
      let offset = thread_offset current in
      first_of
        (λ obj. first_of (λ area. first_of (find_entry offset current) area.source_map) obj.areas)
        objects

  -- The value of the symbol, and the length that the code returns; `none` is the length 0 with no
  -- value stored.
  unfoldable pub get_symbol : List Object → ℕ → List ℕ → Option (ℕ × ℕ)
  get_symbol objects current name =
      let offset = thread_offset current in
      let symbol =
        first_of
          (λ obj.
            first_of
              (λ area.
                first_of (λ sym. if begins sym.name name then some sym else none) area.symbols)
              obj.areas)
          objects in
      elim symbol [ none ↦ none | some sym ↦ some (u16 (sym.value + offset), length sym.name) ]
