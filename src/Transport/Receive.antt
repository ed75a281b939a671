-- ===== src/Transport/Receive.antt =====
-- What reaches the resolver of a datagram.
use yeti_lnp_resolver.Base.{
  ℕ, ◌-◌, ◌≤◌, ◌<◌, ◌≡◌, ◌↔◌, refl, ap, Bool, true, false, none, some, Bytes, arith, length,
  take_all, length-take, pos,
}
use yeti_lnp_resolver.Types.{ClientInfo, RecvData, ResolverRequest}
use yeti_lnp_resolver.Resolver.Request.{parse, encode_tagged}
use yeti_lnp_resolver.Resolver.Parsing.{received, asked, parse-encode_tagged}
use yeti_lnp_resolver.Transport.{
  Received, datagram, interrupted, bad_descriptor, other_error, recv_data, handle_event, zeros,
}

abbrev pub sender : ℕ → ℕ × ℕ → ℕ → ClientInfo
sender fd addr addr_size = record { addr = addr; addr_size = addr_size; recv_fd = pos fd }

-- A datagram that the buffer holds is handed to the resolver whole, with its sender, and what
-- stands behind it in the buffer is zeros; the dispatcher goes on.
pub handle_event-received :
    (fd : ℕ) (bytes : Bytes) (addr : ℕ × ℕ) (addr_size : ℕ) (stop : Bool)
    → length bytes ≤ 2048
    → handle_event fd (datagram bytes addr addr_size) stop ≡ record {
      returned = pos 0;
      stop = stop;
      delivered = some (received (sender fd addr addr_size) bytes (zeros (2048 - length bytes)));
    }
unfolding handle_event
handle_event-received fd bytes addr addr_size stop h = rw (take_all 2048 bytes h)

-- The NUL behind the datagram is written inside the buffer exactly if the datagram is shorter than
-- the buffer.
recv_data-in_bounds :
    (fd : ℕ) (bytes : Bytes) (addr : ℕ × ℕ) (addr_size : ℕ)
    → (recv_data fd (datagram bytes addr addr_size)).in_bounds ≡ true ↔ (length bytes < 2048)
unfolding recv_data
recv_data-in_bounds fd bytes addr addr_size =
    (λ e. ground (arith, length-take 2048 bytes), λ h. ground (arith, length-take 2048 bytes))

-- If `recvfrom` fails nothing is delivered, and the dispatcher is stopped exactly on a bad
-- descriptor.
handle_event_error :
    (fd : ℕ) (received : Received) (stop : Bool)
    → (recv_data fd received).ret ≡ none
    → ((handle_event fd received stop).delivered ≡ none)
      × ((handle_event fd received false).stop ≡ true ↔ (received ≡ bad_descriptor))
unfolding handle_event
handle_event_error fd (datagram bytes addr addr_size) stop e = cc
handle_event_error fd interrupted stop e = (refl, (λ h. cc, λ h. cc))
handle_event_error fd bad_descriptor stop e = (refl, (λ h. refl, λ h. refl))
handle_event_error fd other_error stop e = (refl, (λ h. cc, λ h. cc))

-- A tagged request that a client sends in one datagram, with an id of 32 bits and a number shorter
-- than 256 bytes, is delivered and parsed as what the client asked for.
pub handle_event-parse :
    (fd : ℕ) (addr : ℕ × ℕ) (addr_size : ℕ) (stop : Bool) (id db : ℕ) (number : Bytes)
    (r : ResolverRequest)
    → id < 4294967296
    → length number < 256
    → (recv : RecvData) × ((handle_event fd
          (datagram (encode_tagged id db number) addr addr_size)
          stop).delivered
        ≡ some recv)
      × (parse recv r ≡ (asked r (sender fd addr addr_size) id 0 db number, none))
handle_event-parse fd addr addr_size stop id db number r hid hn =
    let bytes = encode_tagged id db number in
    let behind = zeros (2048 - length bytes) in
    (
      received (sender fd addr addr_size) bytes behind,
      ap (λ h. h.delivered) (handle_event-received fd bytes addr addr_size stop (omega arith)),
      parse-encode_tagged r (sender fd addr addr_size) id db number behind hid hn,
    )
