-- ===== src/Tests/Network.antt =====
-- URLs of endpoints, and datagrams that the socket gives.
use yeti_lnp_resolver.Base.{
  ℕ, ◌≡◌, ◌<◌, ◌++◌, ◌∷◌, refl, false, none, some, [], Bytes, codes, pos, length, ltb→lt, Lacks,
}
use yeti_lnp_resolver.Base.Decimal.{to_string}
use yeti_lnp_resolver.Types.{ResolverRequest, RecvData, empty_result}
use yeti_lnp_resolver.Resolver.Request.{parse, encode_tagged}
use yeti_lnp_resolver.Resolver.Parsing.{asked}
use yeti_lnp_resolver.Transport.{datagram, handle_event, bind_endpoints, bound}
use yeti_lnp_resolver.Transport.Receive.{sender, handle_event-parse}
use yeti_lnp_resolver.Transport.Endpoints.{
  IsHostPort, working, bind_endpoints-host_ports, proto_url,
}

abbrev host : Bytes
host = codes "lo"

abbrev host_lacks : Lacks b':' host
host_lacks = (refl, (refl, tt))

abbrev sctp : Bytes
sctp = codes "sctp"

host_url : length (host ++ (b':' ∷ to_string 53)) < 128
unfolding to_string
host_url = ltb→lt 5 128 refl

sctp_url : length (proto_url sctp host 53) < 128
unfolding to_string
sctp_url = ltb→lt 12 128 refl

abbrev peer : ℕ × ℕ
peer = (2130706433, 5060)

abbrev blank : ResolverRequest
blank = record {
  id = 77;
  type = pos 0;
  db_id = pos 0;
  client_info = sender 3 peer 16;
  number = [];
  req_start = 0;
  is_done = false;
  result = empty_result;
}

handle_event-parse_example :
    (recv : RecvData) × ((handle_event 3
        (datagram (encode_tagged 9 1 (codes "380")) peer 16)
        false).delivered
      ≡ some recv)
    × (parse recv blank ≡ (asked blank (sender 3 peer 16) 9 0 1 (codes "380"), none))
handle_event-parse_example =
    handle_event-parse 3 peer 16 false 9 1 (codes "380") blank (ltb→lt 9 4294967296 refl)
      (ltb→lt 3 256 refl)

abbrev host_53 : IsHostPort (host, 53)
host_53 = (host_lacks, ltb→lt 0 2 refl, ltb→lt 1 64 refl, host_url, ltb→lt 53 65536 refl)

bind_endpoints-host_ports_example :
    bind_endpoints (working (host, 53) ∷ []) ≡ bound ((host, 53) ∷ [])
bind_endpoints-host_ports_example = bind_endpoints-host_ports (host, 53) [] (host_53, tt)
