-- ===== src/Transport/Endpoints.antt =====
-- Which endpoints the transport listens on.
use yeti_lnp_resolver.Base.{
  ℕ, ◌≤◌, ◌<◌, ◌≡◌, refl, ap, true, some, List, [], ◌∷◌, ◌++◌, Bytes, codes, map, arith, length,
  Lacks, pos, All,
}
use yeti_lnp_resolver.Base.Decimal.{to_string}
use yeti_lnp_resolver.UriParser.RoundTrip.{
  parse_addr-host_port, parse_addr-proto, parse_addr_long_proto,
}
use yeti_lnp_resolver.Transport.{
  Endpoint, skipped, listening, bind_endpoint, collect, bound, nothing_bound, bind_endpoints, htons,
}

-- A host and a port, written as a URL of at most 127 bytes.
abbrev pub url_of : Bytes × ℕ → Bytes
url_of (host, port) = host ++ (b':' ∷ to_string port)

abbrev pub IsHostPort : Bytes × ℕ → Type 0
IsHostPort (host, port) =
    Lacks b':' host
    × (0 < length host)
    × (length host ≤ 64)
    × (length (host ++ (b':' ∷ to_string port)) < 128)
    × (port < 65536)

abbrev pub working : Bytes × ℕ → Endpoint
working hp = record { url = url_of hp; socket_ok = true; bind_ok = true }

htons_small : (port : ℕ) → port < 65536 → htons (pos port) ≡ port
htons_small port small = omega arith

bind_endpoint-host_port :
    (hp : Bytes × ℕ) → IsHostPort hp → bind_endpoint (working hp) ≡ listening hp.0 hp.1
unfolding bind_endpoint
bind_endpoint-host_port hp v =
    rw (parse_addr-host_port hp.0 hp.1 v.0 v.1 v.2 v.3)
      (ap (λ port. listening hp.0 port) (htons_small hp.1 v.4))

collect-host_ports :
    (hps : List (Bytes × ℕ)) → All IsHostPort hps → collect (map working hps) ≡ some hps
unfolding collect
collect-host_ports [] v = refl
collect-host_ports (hp ∷ hps) v =
    rw (bind_endpoint-host_port hp v.0, collect-host_ports hps v.1) refl

-- With URLs `host:port` of at most 127 bytes, with hosts of 1 to 64 bytes and ports below 65536,
-- whose sockets can be bound, the transport listens on all of them, in order, with these ports.
pub bind_endpoints-host_ports :
    (hp : Bytes × ℕ) (hps : List (Bytes × ℕ))
    → All IsHostPort (hp ∷ hps)
    → bind_endpoints (map working (hp ∷ hps)) ≡ bound (hp ∷ hps)
unfolding bind_endpoints
bind_endpoints-host_ports hp hps v = rw (collect-host_ports (hp ∷ hps) v) refl

abbrev pub proto_url : Bytes → Bytes → ℕ → Bytes
proto_url proto host port = proto ++ (codes "://" ++ (host ++ (b':' ∷ to_string port)))

-- A URL with a protocol, in the bounds of the parser.
abbrev pub IsProtoUrl : Bytes × Bytes × ℕ → Type 0
IsProtoUrl (proto, host, port) =
    Lacks b':' proto
    × (0 < length proto)
    × (length proto ≤ 16)
    × Lacks b':' host
    × (0 < length host)
    × (length host ≤ 64)
    × (length (proto_url proto host port) < 128)

bind_endpoint_unsupported :
    (e : Endpoint) (u : Bytes × Bytes × ℕ)
    → e.url ≡ proto_url u.0 u.1 u.2
    → IsProtoUrl u
    → bind_endpoint e ≡ skipped
unfolding bind_endpoint
bind_endpoint_unsupported e (proto, host, port) same v =
    rw (same, parse_addr-proto proto host port v.0 v.1 v.2 v.3 v.4 v.5 v.6) (ground (arith, v.1))

-- Each endpoint has a URL with a protocol.
abbrev pub AreProtoUrls : List Endpoint → Type 0
AreProtoUrls = All (λ e. (u : Bytes × Bytes × ℕ) × (e.url ≡ proto_url u.0 u.1 u.2) × IsProtoUrl u)

collect_unsupported : (es : List Endpoint) → AreProtoUrls es → collect es ≡ some []
unfolding collect
collect_unsupported [] v = refl
collect_unsupported (e ∷ es) v =
    rw (bind_endpoint_unsupported e v.0.0 v.0.1 v.0.2, collect_unsupported es v.1) refl

-- With URLs `proto://host:port` only, of at most 127 bytes, with protocols of 1 to 16 bytes and hosts
-- of 1 to 64, nothing is listened on, whatever the sockets would do.
pub bind_endpoints_unsupported :
    (e : Endpoint) (es : List Endpoint)
    → AreProtoUrls (e ∷ es)
    → bind_endpoints (e ∷ es) ≡ nothing_bound
unfolding bind_endpoints
bind_endpoints_unsupported e es v = rw (collect_unsupported (e ∷ es) v) refl

-- A URL `proto://host:port` of at most 127 bytes, whose host has 1 to 64 bytes, is not listened on
-- if the protocol has 1 to 16 bytes; with a longer protocol it is listened on, if the socket can
-- be bound.
bind_endpoint-proto_url :
    (e : Endpoint) (proto host : Bytes) (port : ℕ)
    → e.url ≡ proto_url proto host port
    → e.socket_ok ≡ true
    → e.bind_ok ≡ true
    → Lacks b':' proto
    → 0 < length proto
    → Lacks b':' host
    → 0 < length host
    → length host ≤ 64
    → length (proto_url proto host port) < 128
    → (length proto ≤ 16 → bind_endpoint e ≡ skipped)
      × (16 < length proto → bind_endpoint e ≡ listening host (htons (pos port)))
unfolding bind_endpoint
bind_endpoint-proto_url e proto host port u so bo lp p_some lh h_some h_short total = (
  λ short.
      rw (u, parse_addr-proto proto host port lp p_some short lh h_some h_short total)
        (ground arith),
  λ long.
      rw (u, parse_addr_long_proto proto host port lp long lh h_some h_short total, so, bo) refl,
)
