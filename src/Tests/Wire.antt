-- ===== src/Tests/Wire.antt =====
-- Requests and replies as bytes: a tagged and a CNAM request, and the replies to them.
use yeti_lnp_resolver.Base.{◌≡◌, ◌<◌, ◌↔◌, refl, false, none, [], ◌∷◌, Bytes, codes, pos, ltb→lt}
use yeti_lnp_resolver.Types.{ClientInfo, RecvData, ResolverRequest, empty_result}
use yeti_lnp_resolver.Resolver.Request.{parse, encode_tagged, encode_cnam, with_header}
use yeti_lnp_resolver.Resolver.Reply.{tagged_reply}
use yeti_lnp_resolver.Resolver.Parsing.{
  received, asked, parse-encode_tagged, parse-encode_cnam, IsComplete, parse-IsComplete,
}
use yeti_lnp_resolver.Resolver.Replies.{
  reply_id, reply_code, reply_lrn, reply_tag, tagged_reply_decodes,
}

abbrev client : ClientInfo
client = record { addr = (1, 2); addr_size = 16; recv_fd = pos 3 }

abbrev blank : ResolverRequest
blank = record {
  id = 77;
  type = pos 0;
  db_id = pos 0;
  client_info = client;
  number = [];
  req_start = 0;
  is_done = false;
  result = empty_result;
}

abbrev number : Bytes
number = codes "380"

abbrev json : Bytes
json = codes "{\"a\":1}"

abbrev behind : Bytes
behind = 0 ∷ 0 ∷ []

abbrev small_id : 77 < 4294967296
small_id = ltb→lt 77 4294967296 refl

parse-encode_tagged_example :
    parse (received client (encode_tagged 77 5 number) behind) blank
    ≡ (asked blank client 77 0 5 number, none)
parse-encode_tagged_example =
    parse-encode_tagged blank client 77 5 number behind small_id (ltb→lt 3 256 refl)

parse-encode_cnam_example :
    parse (received client (encode_cnam 77 5 json) behind) blank
    ≡ (asked blank client 77 1 5 json, none)
parse-encode_cnam_example =
    parse-encode_cnam blank client 77 5 json behind small_id (ltb→lt 7 4294967296 refl)

abbrev datagram : RecvData
datagram = received client (encode_tagged 77 5 number) behind

parse-IsComplete_example :
    IsComplete datagram number
    ↔ (parse datagram blank ≡ (record (with_header blank datagram) { number = number }, none))
parse-IsComplete_example = parse-IsComplete datagram blank number

abbrev found : ResolverRequest
found = record blank {
  result = record {
    local_routing_number = codes "111";
    local_routing_tag = codes "t";
    raw_data = json;
  };
}

tagged_reply_decodes_example :
    (reply_id (tagged_reply found) ≡ 77)
    × (reply_code (tagged_reply found) ≡ 0)
    × (reply_lrn (tagged_reply found) ≡ codes "111")
    × (reply_tag (tagged_reply found) ≡ codes "t")
tagged_reply_decodes_example = tagged_reply_decodes found small_id (ltb→lt 4 256 refl)
