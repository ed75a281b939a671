-- ===== src/Transport.antt =====
-- src/transport/Transport.cpp: the endpoints, and one `recvfrom` or `sendto` at a time. The system
-- calls are arguments: what `socket`, `link`, `bind`, `recvfrom` and `sendto` returned.
pub mod Receive
pub mod Endpoints
pub mod Sockets
use yeti_lnp_resolver.Base.{
  ℕ, zero, suc, ◌+◌, ◌-◌, ◌%◌, Bool, true, false, ◌&&◌, ◌||◌, Option, none, some, List, [], ◌∷◌,
  ◌++◌, Bytes, ltb, leb, ◌==◌, if◌then◌else◌, length, take, ℤ, pos, negsuc, is_negative,
}
use yeti_lnp_resolver.Types.{ClientInfo, RecvData, msg_sz}
use yeti_lnp_resolver.UriParser.{UriComponents, ParsedAddr, failed, overflow, parsed, parse_addr}

-- `recvfrom`: a datagram with its sender's address and the address size, or an `errno`.
pub data Received : Type 0 where
  datagram : Bytes → ℕ × ℕ → ℕ → Received
  interrupted bad_descriptor other_error : Received

abbrev pub zeros : ℕ → Bytes
zeros zero = []
zeros (suc n) = 0 ∷ zeros n

-- The result of `recv_data`: the value returned, what `out` holds, and whether every write was
-- inside the array `data`. `ret` is `none` for -1.
pub record RecvResult : Type 0 where
  pub ret : Option ℕ
  pub out : RecvData
  pub in_bounds : Bool

-- `recvfrom` cuts a longer datagram to the size of the buffer. Behind it `data[ret]` is set to NUL,
-- which is past the array when the buffer is full.
unfoldable pub recv_data : ℕ → Received → RecvResult
recv_data fd (datagram bytes addr addr_size) =
    let got = take msg_sz bytes in
    let n = length got in
    record {
      ret = some n;
      out = record {
        client_info = record { addr = addr; addr_size = addr_size; recv_fd = pos fd };
        buffer = got ++ zeros (msg_sz - n);
        length = n;
      };
      in_bounds = n == 0 || ltb n msg_sz;
    }
recv_data fd error = record {
  ret = none;
  out = record {
    client_info = record { addr = (0, 0); addr_size = 16; recv_fd = pos fd };
    buffer = zeros msg_sz;
    length = 0;
  };
  in_bounds = true;
}

-- What `handle_event` does: whether it stops the dispatcher, and the data it hands to
-- `on_data_received`.
pub record Handled : Type 0 where
  pub returned : ℤ
  pub stop : Bool
  pub delivered : Option RecvData

abbrev pub is_bad_descriptor : Received → Bool
is_bad_descriptor bad_descriptor = true
is_bad_descriptor _ = false

abbrev pub handle_received : Received → RecvResult → Bool → Handled
handle_received received r stop = elim r.ret [
  | none ↦ record {
    returned = negsuc 0;
    stop = stop || is_bad_descriptor received;
    delivered = none;
  }
  | some n ↦ record { returned = pos 0; stop = stop; delivered = some r.out }
]

-- The handler is set.
unfoldable pub handle_event : ℕ → Received → Bool → Handled
unfolding recv_data
handle_event fd received stop = handle_received received (recv_data fd received) stop

-- `send_data` for a socket that may be -1; `sent` is what `sendto` returned.
unfoldable pub send_data : ClientInfo → ℤ → ℤ
send_data client sent = if is_negative client.recv_fd then negsuc 0 else sent

-- What the system calls did for one URL: `socket` and `link`, then `bind`.
pub record Endpoint : Type 0 where
  pub url : Bytes
  pub socket_ok : Bool
  pub bind_ok : Bool

-- One round of the loop of `bind_endpoints`: the socket that listens, if any, by the text that
-- `inet_addr` was given and the port, or a write past an array in `parseAddr`.
pub data Bound : Type 0 where
  skipped : Bound
  corrupted : Bound
  listening : Bytes → ℕ → Bound

-- `htons(port)`: the `int` is converted to 16 bits. The byte order is that of the wire.
abbrev pub htons : ℤ → ℕ
htons (pos n) = n % 65536
htons (negsuc n) = 65535 - n % 65536

unfoldable pub bind_parsed : Endpoint → ParsedAddr → Bound
bind_parsed e failed = skipped
bind_parsed e overflow = corrupted
bind_parsed e (parsed u) =
    if length u.proto == 0
    then if e.socket_ok && e.bind_ok then listening u.host (htons u.port) else skipped
    else skipped

unfoldable pub bind_endpoint : Endpoint → Bound
unfolding bind_parsed
bind_endpoint e = bind_parsed e (parse_addr (some e.url))

-- The constructor: it throws if no URL is configured or none could be bound.
pub data Binding : Type 0 where
  bound : List (Bytes × ℕ) → Binding
  no_endpoints nothing_bound undefined : Binding

abbrev pub prepend : Bytes × ℕ → Option (List (Bytes × ℕ)) → Option (List (Bytes × ℕ))
prepend b none = none
prepend b (some bs) = some (b ∷ bs)

abbrev pub collect_round : Bound → Option (List (Bytes × ℕ)) → Option (List (Bytes × ℕ))
collect_round skipped rest = rest
collect_round corrupted rest = none
collect_round (listening host port) rest = prepend (host, port) rest

unfoldable pub collect : List Endpoint → Option (List (Bytes × ℕ))
collect [] = some []
collect (e ∷ es) = collect_round (bind_endpoint e) (collect es)

abbrev pub conclude : Option (List (Bytes × ℕ)) → Binding
conclude none = undefined
conclude (some []) = nothing_bound
conclude (some (b ∷ bs)) = bound (b ∷ bs)

unfoldable pub bind_endpoints : List Endpoint → Binding
unfolding collect bind_endpoint
bind_endpoints [] = no_endpoints
bind_endpoints (e ∷ es) = conclude (collect (e ∷ es))
