-- ===== src/Ti/Link/Protocol.antt =====
-- The link assist as two one-byte buffers with handshakes.
use z80e.Common.{ℕ, ◌≡◌, refl, arith, Bool, true, false, not, none, some}
use z80e.Ti.Memory.{DeviceType}
use z80e.Ti.Link.{
  Link, AssistStatus, no_assist, init_link, write_link_port, write_link_assist_enable_port,
  read_link_assist_rx_port, write_link_assist_tx_port, link_recv_ready, link_recv_byte,
  link_read_tx_buffer,
}

-- One call: by the program through a port, or by the other end of the link.
pub data Step (device : DeviceType) : Link × Bool → Link × Bool → Type 0 where
  write_lines :
      (s : Link) (pin : Bool) (val : ℕ) → Step device (s, pin) (write_link_port s val, pin)
  write_enable :
      (s : Link) (pin : Bool) (val : ℕ)
      → Step device (s, pin) (write_link_assist_enable_port device s pin val)
  read_rx :
      (s : Link) (pin : Bool)
      → Step device
          (s, pin)
          ((read_link_assist_rx_port device s pin).1, (read_link_assist_rx_port device s pin).2)
  write_tx :
      (s : Link) (pin : Bool) (val : ℕ)
      → Step device (s, pin) (write_link_assist_tx_port s val, pin)
  recv :
      (s : Link) (pin : Bool) (val : ℕ)
      → Step device (s, pin) ((link_recv_byte s pin val).1, (link_recv_byte s pin val).2)
  send :
      (s : Link) (pin : Bool)
      → Step device (s, pin) ((link_read_tx_buffer s pin).1, (link_read_tx_buffer s pin).2)

pub data Reachable (device : DeviceType) : Link × Bool → Type 0 where
  start : (pin : Bool) → Reachable device (init_link, pin)
  next : {s t : Link × Bool} → Reachable device s → Step device s t → Reachable device t

-- The sender is ready exactly when no byte is on its way, and the bits for interrupts follow.
pub record HandshakesAgree (s : AssistStatus) : Type 0 where
  pub sends : s.tx_active ≡ not s.tx_ready
  pub tx_interrupt : s.int_tx_ready ≡ s.tx_ready
  pub rx_interrupt : s.int_rx_ready ≡ s.rx_ready

pub Step-HandshakesAgree :
    {device : DeviceType} {s t : Link × Bool}
    → Step device s t
    → HandshakesAgree s.0.status
    → HandshakesAgree t.0.status
unfolding write_link_port write_link_assist_enable_port read_link_assist_rx_port
    write_link_assist_tx_port link_recv_byte link_read_tx_buffer
Step-HandshakesAgree (write_lines s pin val) h = h
Step-HandshakesAgree (write_enable s pin val) h = record {
  sends = ground arith;
  tx_interrupt = ground arith;
  rx_interrupt = ground arith;
}
Step-HandshakesAgree (read_rx s pin) h = record {
  sends = ground arith;
  tx_interrupt = ground arith;
  rx_interrupt = ground arith;
}
Step-HandshakesAgree (write_tx s pin val) h = record {
  sends = ground arith;
  tx_interrupt = ground arith;
  rx_interrupt = ground arith;
}
Step-HandshakesAgree (recv s pin val) h = record {
  sends = ground arith;
  tx_interrupt = ground arith;
  rx_interrupt = ground arith;
}
Step-HandshakesAgree (send s pin) h = record {
  sends = ground arith;
  tx_interrupt = ground arith;
  rx_interrupt = ground arith;
}

-- In every state that the calls reach, a byte is on its way exactly when the sender is not ready,
-- and the two bits for interrupts agree with the two bits that say ready.
pub Reachable-HandshakesAgree :
    {device : DeviceType} {s : Link × Bool} → Reachable device s → HandshakesAgree s.0.status
Reachable-HandshakesAgree (start pin) = record {
  sends = refl;
  tx_interrupt = refl;
  rx_interrupt = refl;
}
Reachable-HandshakesAgree (next r step) = Step-HandshakesAgree step (Reachable-HandshakesAgree r)

-- On a calculator with a link assist: a byte that arrives while no byte waits is accepted and read
-- from the port, after which the assist is ready for the next one and reads 0; a byte that arrives
-- while one waits is refused and changes nothing.
pub read_rx-recv_byte :
    (device : DeviceType) (s : Link) (pin pin' : Bool) (val val' : ℕ)
    → no_assist device ≡ false
    → s.status.rx_ready ≡ false
    → ((link_recv_byte s pin val).0 ≡ true)
      × ((link_recv_byte (link_recv_byte s pin val).1 pin' val')
          ≡ (false, (link_recv_byte s pin val).1, pin'))
      × ((read_link_assist_rx_port device (link_recv_byte s pin val).1 pin').0 ≡ val)
      × (link_recv_ready (read_link_assist_rx_port device (link_recv_byte s pin val).1 pin').1
          ≡ true)
unfolding read_link_assist_rx_port link_recv_byte link_recv_ready
read_rx-recv_byte device s pin pin' val val' assist ready =
    (ground arith, ground arith, ground arith, ground arith)

-- A byte written to the port while the sender is ready is the byte that the other end takes, once;
-- until it does, further bytes written are dropped.
pub read_tx_buffer-write_tx :
    (s : Link) (pin : Bool) (val val' : ℕ)
    → s.status.tx_ready ≡ true
    → (write_link_assist_tx_port (write_link_assist_tx_port s val) val'
        ≡ write_link_assist_tx_port s val)
      × ((link_read_tx_buffer (write_link_assist_tx_port s val) pin).0 ≡ some val)
      × ((link_read_tx_buffer (link_read_tx_buffer (write_link_assist_tx_port s val) pin).1 pin).0
          ≡ none)
unfolding write_link_assist_tx_port link_read_tx_buffer
read_tx_buffer-write_tx s pin val val' ready = (ground arith, ground arith, ground arith)
