-- ===== src/Ti/Mapping.antt =====
-- libz80e/src/ti/hardware/memorymapping.c: ports 4 to 7, which choose the pages of the banks. The
-- state of the ports stands with the unit whose banks it sets.
pub mod Laws
use z80e.Common.{
  ℕ, zero, suc, ◌+◌, ◌-◌, ◌*◌, ◌/◌, ◌%◌, ◌^◌, Bool, true, false, not, ◌&&◌, ltb, ◌==◌,
  if◌then◌else◌, to_bool, bit_and, ◌|||◌, u8,
}
use z80e.Ti.Memory.{DeviceType, ti73, ti83p, ti83p_se, ti84p, ti84p_se, ti84p_cse, Bank, Mmu}

-- `memory_mapping_state_t`, with `asic->device` and `asic->mmu`.
pub record Mapping (H : Type 0) : Type 0 where
  pub device : DeviceType
  pub map_mode : Bool
  pub bank_a_page : ℕ
  pub bank_a_flash : Bool
  pub bank_b_page : ℕ
  pub bank_b_flash : Bool
  pub ram_bank_page : ℕ
  pub mmu : Mmu H

-- `device == TI83p`.
abbrev pub is_ti83p : DeviceType → Bool
is_ti83p ti73 = false
is_ti83p ti83p = true
is_ti83p ti83p_se = false
is_ti83p ti84p = false
is_ti83p ti84p_se = false
is_ti83p ti84p_cse = false

module _ {H : Type 0} where
  -- What the last loop of `reload_mapping` does to a bank.
  unfoldable pub check_page : Mmu H → Bank → Bank
  check_page mmu bank =
      if bank.flash && ltb mmu.flash_pages bank.page
      then record bank { page = u8 (bit_and bank.page mmu.flash_pages) }
      else (if not bank.flash && ltb mmu.ram_pages bank.page
          then record bank { page = u8 (bit_and bank.page mmu.ram_pages) }
          else bank)

  unfoldable pub mapped_1 : Mapping H → Bank
  mapped_1 state = record {
    page = if state.map_mode then bit_and state.bank_a_page 0xfe else state.bank_a_page;
    flash = state.bank_a_flash;
  }

  unfoldable pub mapped_2 : Mapping H → Bank
  mapped_2 state =
      if state.map_mode
      then record {
        page = if is_ti83p state.device then state.bank_a_page else u8 (state.bank_a_page ||| 1);
        flash = state.bank_a_flash;
      }
      else record { page = state.bank_b_page; flash = state.bank_b_flash }

  unfoldable pub mapped_3 : Mapping H → Bank
  mapped_3 state =
      if state.map_mode
      then record { page = state.bank_b_page; flash = state.bank_b_flash }
      else record { page = if is_ti83p state.device then 0 else state.ram_bank_page; flash = false }

  unfoldable pub reload_mapping : Mapping H → Mapping H
  reload_mapping state = record state {
    mmu = record (state.mmu) {
      bank_0 = check_page state.mmu (record { page = 0; flash = true });
      bank_1 = check_page state.mmu (mapped_1 state);
      bank_2 = check_page state.mmu (mapped_2 state);
      bank_3 = check_page state.mmu (mapped_3 state);
    };
  }

  -- Port 4, without the speed of the timers that the write sets too.
  unfoldable pub write_map_mode : Mapping H → ℕ → Mapping H
  write_map_mode state value =
      reload_mapping (record state { map_mode = to_bool (bit_and value 1) })

  -- Port 5.
  unfoldable pub read_ram_paging_port : Mapping H → ℕ
  read_ram_paging_port state = state.ram_bank_page

  unfoldable pub write_ram_paging_port : Mapping H → ℕ → Mapping H
  write_ram_paging_port state value =
      reload_mapping (record state { ram_bank_page = bit_and value 7 })

  -- The mark of a RAM page in the byte of port 6 or 7, and the bits of its page number: seven on the
  -- other calculators, by the code, where its comment has six.
  abbrev pub ram_mark : Mapping H → ℕ
  ram_mark state = if is_ti83p state.device then 0x40 else 0x80

  abbrev pub page_mask : Mapping H → ℕ
  page_mask state = if is_ti83p state.device then 0x1f else 0x7f

  -- Port 6.
  unfoldable pub read_bank_a_paging_port : Mapping H → ℕ
  read_bank_a_paging_port state =
      if not state.bank_a_flash then state.bank_a_page ||| ram_mark state else state.bank_a_page

  unfoldable pub write_bank_a_paging_port : Mapping H → ℕ → Mapping H
  write_bank_a_paging_port state value = reload_mapping (record state {
    bank_a_flash = bit_and value (ram_mark state) == 0;
    bank_a_page = bit_and value (page_mask state);
  })

  -- Port 7.
  unfoldable pub read_bank_b_paging_port : Mapping H → ℕ
  read_bank_b_paging_port state =
      if not state.bank_b_flash then state.bank_b_page ||| ram_mark state else state.bank_b_page

  unfoldable pub write_bank_b_paging_port : Mapping H → ℕ → Mapping H
  write_bank_b_paging_port state value = reload_mapping (record state {
    bank_b_flash = bit_and value (ram_mark state) == 0;
    bank_b_page = bit_and value (page_mask state);
  })

-- `init_mapping_ports`.
unfoldable pub init_mapping_ports : {H : Type 0} → DeviceType → Mmu H → Mapping H
init_mapping_ports device mmu = reload_mapping (record {
  device = device;
  map_mode = false;
  bank_a_page = 0;
  bank_a_flash = true;
  bank_b_page = 0;
  bank_b_flash = true;
  ram_bank_page = 0;
  mmu = mmu;
})
