-- ===== src/Runloop/Sockets.antt =====
-- `link_socket_update`: the bytes that come in over the sockets of the link.
use z80e.Common.{
  ℕ, ◌+◌, Bool, true, ◌&&◌, List, [], ◌∷◌, Option, none, some, ◌==◌, if◌then◌else◌, u8,
}
use z80e.Ti.Link.{link_recv_byte, link_recv_ready}
use z80e.Ti.Asic.{Asic}
use z80e.Ti.Asic.Ports.{with_pin}

-- What the system's calls say of a client: `POLLHUP`, `POLLIN`, and the byte that `read` gives, which
-- is `none` when it returns 0.
pub record ClientEvent : Type 0 where
  pub hung_up : Bool
  pub readable : Bool
  pub received : Option ℕ

-- What they say in one call of `link_socket_update`: the descriptor that `accept` gives, `none` for
-- -1, and the event of each client.
pub record SocketEvents : Type 0 where
  pub accepted : Option ℕ
  pub client : ℕ → ClientEvent

-- The descriptor of a client after a new one, `fd`, has taken its place when it is free.
unfoldable pub seated : Option ℕ → ℕ → ℕ
seated none client = client
seated (some fd) client = if client == 0 then fd else client

module _ {F H : Type 0} where
  unfoldable pub receive : Option ℕ → Asic F H → Asic F H
  receive none asic = asic
  receive (some val) asic =
      let (_, link, pin) = link_recv_byte asic.link asic.interrupts.pin (u8 val) in
      record asic { link = link; interrupts = with_pin pin asic.interrupts }

  -- A client with the descriptor `fd`, which is 0 for none: the descriptor after it.
  unfoldable pub serve_client : ClientEvent → ℕ → Asic F H → ℕ × Asic F H
  serve_client event fd asic =
      if fd == 0
      then (0, asic)
      else (if event.hung_up then (0, asic) else (
        fd,
        if event.readable && link_recv_ready asic.link then receive event.received asic else asic,
      ))

  -- The loop over the clients from `i` on, with the new descriptor that is still without a place.
  unfoldable pub update_clients :
      (ℕ → ClientEvent) → ℕ → Option ℕ → List ℕ → Asic F H → List ℕ × Asic F H
  update_clients event i fd [] asic = ([], asic)
  update_clients event i fd (client ∷ clients) asic =
      let served = serve_client (event i) (seated fd client) asic in
      let rest = update_clients event (i + 1) (if client == 0 then none else fd) clients served.1 in
      (served.0 ∷ rest.0, rest.1)

  -- The byte `c` is only printed and sent on. The loop counts twice as many clients as the array has:
  -- after the ten of the array it is outside of it.
  unfoldable pub link_socket_update : SocketEvents → Option ℕ → Asic F H → Asic F H
  link_socket_update events c asic =
      let sockets = asic.sockets in
      let fd = if sockets.accept == 4096 then events.accepted else none in
      let updated = update_clients events.client 0 fd sockets.clients asic in
      if sockets.listenfd == 0 then asic else record (updated.1) {
        sockets = record sockets {
          accept = if sockets.accept == 4096 then 0 else sockets.accept + 1;
          clients = updated.0;
        };
        stuck = true;
      }
