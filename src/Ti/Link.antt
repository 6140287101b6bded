-- ===== src/Ti/Link.antt =====
-- libz80e/src/ti/hardware/link.c: the link port and the link assist, ports 0 and 8 to 13. `pin` is
-- `asic->cpu->interrupt`; the prints are left out.
pub mod Protocol
use z80e.Common.{
  ℕ, zero, suc, ◌+◌, ◌*◌, ◌/◌, ◌%◌, ◌^◌, Bool, true, false, not, ◌&&◌, ◌||◌, Option, none, some,
  bit, bit_and, ◌|||◌, if◌then◌else◌, to_ℕ, to_bool, u8, int_not, ◌<<<◌,
}
use z80e.Ti.Memory.{DeviceType, ti73, ti83p, ti83p_se, ti84p, ti84p_se, ti84p_cse}

-- The bit fields of `assist.status`, from the low bit up.
pub record AssistStatus : Type 0 where
  pub int_rx_ready : Bool
  pub int_tx_ready : Bool
  pub int_error : Bool
  pub rx_active : Bool
  pub rx_ready : Bool
  pub tx_ready : Bool
  pub error : Bool
  pub tx_active : Bool

-- `link_state_t`.
pub record Link : Type 0 where
  pub them_tip : Bool
  pub them_ring : Bool
  pub us_tip : Bool
  pub us_ring : Bool
  pub mask : ℕ
  pub status : AssistStatus
  pub rx_buffer : ℕ
  pub tx_buffer : ℕ

-- `assist.status.u8`.
unfoldable pub status_byte : AssistStatus → ℕ
status_byte s =
    to_ℕ s.int_rx_ready
    + to_ℕ s.int_tx_ready * 2
    + to_ℕ s.int_error * 4
    + to_ℕ s.rx_active * 8
    + to_ℕ s.rx_ready * 16
    + to_ℕ s.tx_ready * 32
    + to_ℕ s.error * 64
    + to_ℕ s.tx_active * 128

-- The bit fields of `interrupts.mask`.
abbrev pub rx : Link → Bool
rx state = bit 0 state.mask

abbrev pub tx : Link → Bool
tx state = bit 1 state.mask

abbrev pub disabled : Link → Bool
disabled state = bit 7 state.mask

-- The calculators without a link assist.
abbrev pub no_assist : DeviceType → Bool
no_assist ti73 = true
no_assist ti83p = true
no_assist ti83p_se = false
no_assist ti84p = false
no_assist ti84p_se = false
no_assist ti84p_cse = false

-- `init_link_ports`.
abbrev pub init_link : Link
init_link = record {
  them_tip = false;
  them_ring = false;
  us_tip = false;
  us_ring = false;
  mask = 0;
  status = record {
    int_rx_ready = false;
    int_tx_ready = true;
    int_error = false;
    rx_active = false;
    rx_ready = false;
    tx_ready = true;
    error = false;
    tx_active = false;
  };
  rx_buffer = 0;
  tx_buffer = 0;
}

-- Both groups of calculators return the same lines.
unfoldable pub read_link_port : Link → ℕ
read_link_port state =
    to_ℕ (state.them_tip || state.us_tip)
    ||| to_ℕ (state.them_ring || state.us_ring) <<< 1
    ||| to_ℕ state.us_tip <<< 4
    ||| to_ℕ state.us_ring <<< 5

unfoldable pub write_link_port : Link → ℕ → Link
write_link_port state val = record state {
  us_tip = to_bool (bit_and val 1);
  us_ring = to_bool (bit_and val 2);
}

unfoldable pub read_link_assist_enable_port : DeviceType → Link → ℕ
read_link_assist_enable_port device state = if no_assist device then 0 else state.mask

-- The result is the state and the pin.
unfoldable pub write_link_assist_enable_port : DeviceType → Link → Bool → ℕ → Link × Bool
write_link_assist_enable_port device state pin val = if no_assist device then (state, pin) else (
  record state { mask = val },
  bit 1 val && state.status.int_tx_ready || bit 0 val && state.status.int_rx_ready,
)

unfoldable pub read_link_assist_rx_port : DeviceType → Link → Bool → ℕ × Link × Bool
read_link_assist_rx_port device state pin =
    if no_assist device || not state.status.rx_ready then (0, state, pin) else (
      state.rx_buffer,
      record state {
        status = record (state.status) { rx_ready = false; int_rx_ready = false };
        rx_buffer = 0;
      },
      (if state.status.int_tx_ready then false else pin),
    )

unfoldable pub read_link_assist_status_port : DeviceType → Link → ℕ
read_link_assist_status_port device state =
    if no_assist device
    then 0
    else u8 (bit_and (status_byte state.status) (state.mask ||| int_not 7))

unfoldable pub write_link_assist_tx_port : Link → ℕ → Link
write_link_assist_tx_port state val = if not state.status.tx_ready then state else record state {
  status = record (state.status) { tx_ready = false; int_tx_ready = false; tx_active = true };
  tx_buffer = val;
}

unfoldable pub link_recv_ready : Link → Bool
link_recv_ready state = not state.status.rx_ready

unfoldable pub link_recv_byte : Link → Bool → ℕ → Bool × Link × Bool
link_recv_byte state pin val = if not (link_recv_ready state) then (false, state, pin) else (
  true,
  record state {
    status = record (state.status) { rx_ready = true; int_rx_ready = true };
    rx_buffer = val;
  },
  (if not (disabled state) && rx state then true else pin),
)

-- `EOF` is `none`.
unfoldable pub link_read_tx_buffer : Link → Bool → Option ℕ × Link × Bool
link_read_tx_buffer state pin =
    if state.status.tx_active
    then (
      some state.tx_buffer,
      record state {
        status = record (state.status) { tx_active = false; tx_ready = true; int_tx_ready = true };
      },
      (if not (disabled state) && tx state then true else pin),
    )
    else (none, state, pin)
