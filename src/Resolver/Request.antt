-- ===== src/Resolver/Request.antt =====
-- `ResolverRequest::parse` of src/resolver/Resolver.cpp, and the request layout that its comment
-- documents.
use yeti_lnp_resolver.Base.{
  ℕ, ◌+◌, Option, none, some, ◌∷◌, ◌++◌, Bytes, codes, ltb, ◌==◌, if◌then◌else◌, length, get_or,
  take, drop, read_u32, write_u32, pos,
}
use yeti_lnp_resolver.Types.{RecvData, ResolverRequest, ResolverError, psql_invalid_request}

abbrev pub tagged_req_version : ℕ
tagged_req_version = 0

abbrev pub cnam_req_version : ℕ
cnam_req_version = 1

-- sizeof(req_hdr_common), TAGGED_PDU_HDR_SIZE and CNAM_HDR_SIZE, under `#pragma pack(1)`.
abbrev pub req_hdr_size : ℕ
req_hdr_size = 6

abbrev pub tagged_hdr_size : ℕ
tagged_hdr_size = 7

abbrev pub cnam_hdr_size : ℕ
cnam_hdr_size = 10

abbrev pub invalid_request : Bytes → ResolverError
invalid_request what = record { code = psql_invalid_request; what = what }

abbrev pub Parsed : Type 0
Parsed = ResolverRequest × Option ResolverError

-- The code behind the switch: the bounds check and `data.assign`.
unfoldable pub assign_data : ResolverRequest → RecvData → ℕ → ℕ → Parsed
assign_data r recv data_offset data_len =
    if ltb recv.length (data_offset + data_len)
    then (r, some (invalid_request (codes "malformed request")))
    else (record r { number = take data_len (drop data_offset recv.buffer) }, none)

-- `case TAGGED_REQ_VERSION` and `case CNAM_REQ_VERSION`.
unfoldable pub parse_tagged : ResolverRequest → RecvData → Parsed
unfolding assign_data
parse_tagged r recv =
    if ltb recv.length tagged_hdr_size
    then (r, some (invalid_request (codes "request is too small")))
    else assign_data r recv tagged_hdr_size (get_or recv.buffer 6 0)

unfoldable pub parse_cnam : ResolverRequest → RecvData → Parsed
unfolding assign_data
parse_cnam r recv =
    if ltb recv.length cnam_hdr_size
    then (r, some (invalid_request (codes "request is too small")))
    else assign_data r recv cnam_hdr_size (read_u32 recv.buffer 6)

-- The switch on the type.
unfoldable pub parse_type : ResolverRequest → RecvData → ℕ → Parsed
unfolding parse_tagged parse_cnam
parse_type r recv type =
    if type == tagged_req_version
    then parse_tagged r recv
    else if type == cnam_req_version
    then parse_cnam r recv
    else (
      record r { type = pos tagged_req_version },
      some (invalid_request (codes "unknown request type")),
    )

-- The header fields that are copied before the switch.
abbrev pub with_header : ResolverRequest → RecvData → ResolverRequest
with_header r recv = record r {
  client_info = recv.client_info;
  id = read_u32 recv.buffer 0;
  db_id = pos (get_or recv.buffer 4 0);
  type = pos (get_or recv.buffer 5 0);
}

-- The request as it is when `parse` returns or throws, and what it throws.
unfoldable pub parse : RecvData → ResolverRequest → Parsed
unfolding parse_type
parse recv r =
    if ltb recv.length req_hdr_size
    then (
      record r { client_info = recv.client_info },
      some (invalid_request (codes "request is too small")),
    )
    else parse_type (with_header r recv) recv (get_or recv.buffer 5 0)

-- The documented layouts, as a client writes them.
abbrev pub encode_tagged : ℕ → ℕ → Bytes → Bytes
encode_tagged id db number = write_u32 id ++ (db ∷ tagged_req_version ∷ length number ∷ number)

abbrev pub encode_cnam : ℕ → ℕ → Bytes → Bytes
encode_cnam id db json = write_u32 id ++ (db ∷ cnam_req_version ∷ (write_u32 (length json) ++ json))
