-- ===== src/Resolver/Parsing.antt =====
-- `ResolverRequest::parse`: which datagrams it takes, and what it reads of them.
use yeti_lnp_resolver.Base.{
  ℕ, ◌+◌, ◌≤◌, ◌<◌, ◌≡◌, ◌↔◌, inl, inr, none, ◌++◌, Bytes, arith, ltb, ◌==◌, length, get_or, take,
  drop, read_u32, pos, get_or-take, take-drop-take, take-append, ap, Bool-cases,
}
use yeti_lnp_resolver.Types.{ClientInfo, RecvData, ResolverRequest}
use yeti_lnp_resolver.Resolver.Request.{
  parse, parse_type, assign_data, parse_tagged, parse_cnam, with_header, encode_tagged, encode_cnam,
}

-- A datagram as it lies in the receive buffer, with whatever stands behind it.
abbrev pub received : ClientInfo → Bytes → Bytes → RecvData
received client datagram behind = record {
  client_info = client;
  buffer = datagram ++ behind;
  length = length datagram;
}

-- The request that a client asked for, over what the parser was given.
abbrev pub asked : ResolverRequest → ClientInfo → ℕ → ℕ → ℕ → Bytes → ResolverRequest
asked r client id type db number = record r {
  id = id;
  type = pos type;
  db_id = pos db;
  client_info = client;
  number = number;
}

-- A tagged request in the documented layout, with an id of 32 bits and a number shorter than 256
-- bytes, is parsed as what the client asked for, whatever stands behind it in the buffer.
pub parse-encode_tagged :
    (r : ResolverRequest) (client : ClientInfo) (id db : ℕ) (number behind : Bytes)
    → id < 4294967296
    → length number < 256
    → parse (received client (encode_tagged id db number) behind) r
      ≡ (asked r client id 0 db number, none)
unfolding parse
parse-encode_tagged r client id db number behind hid hn = ground (arith, take-append number behind)

-- A CNAM request in the documented layout, with an id and a length of 32 bits, is parsed as what
-- the client asked for, whatever stands behind it in the buffer.
pub parse-encode_cnam :
    (r : ResolverRequest) (client : ClientInfo) (id db : ℕ) (json behind : Bytes)
    → id < 4294967296
    → length json < 4294967296
    → parse (received client (encode_cnam id db json) behind) r
      ≡ (asked r client id 1 db json, none)
unfolding parse
parse-encode_cnam r client id db json behind hid hn = ground (arith, take-append json behind)

-- The datagram is complete: it has its type's header, and all the data that the header announces.
-- `number` is that data.
pub data IsComplete (recv : RecvData) (number : Bytes) : Type 0 where
  tagged :
      get_or recv.buffer 5 0 ≡ 0
      → 7 + get_or recv.buffer 6 0 ≤ recv.length
      → number ≡ take (get_or recv.buffer 6 0) (drop 7 recv.buffer)
      → IsComplete recv number
  cnam :
      get_or recv.buffer 5 0 ≡ 1
      → 10 + read_u32 recv.buffer 6 ≤ recv.length
      → number ≡ take (read_u32 recv.buffer 6) (drop 10 recv.buffer)
      → IsComplete recv number

parse_sound :
    (recv : RecvData) (r : ResolverRequest)
    → (parse recv r).1 ≡ none
    → IsComplete recv (parse recv r).0.number
unfolding parse
parse_sound recv r h = elim (Bool-cases (ltb recv.length 6)) [
  | inl small ↦ ground arith
  | inr enough ↦ elim (Bool-cases (get_or recv.buffer 5 0 == 0)) [
    | inl zero_type ↦ tagged (ground arith) (ground arith) (ground arith)
    | inr other_type ↦ elim (Bool-cases (get_or recv.buffer 5 0 == 1)) [
      | inl one_type ↦ cnam (ground arith) (ground arith) (ground arith)
      | inr unknown ↦ ground arith
    ]
  ]
]

parse_complete :
    (recv : RecvData) (r : ResolverRequest) (number : Bytes)
    → IsComplete recv number
    → parse recv r ≡ (record (with_header r recv) { number = number }, none)
unfolding parse
parse_complete recv r number (tagged t fits e) = ground arith
parse_complete recv r number (cnam t fits e) = ground arith

-- The parser succeeds with `number`, with the header fields and with nothing else changed, exactly
-- if the datagram has its type's header and all the data that the header announces, which is
-- `number`.
pub parse-IsComplete :
    (recv : RecvData) (r : ResolverRequest) (number : Bytes)
    → IsComplete recv number
      ↔ (parse recv r ≡ (record (with_header r recv) { number = number }, none))
parse-IsComplete recv r number =
    (parse_complete recv r number, λ e. rw e at (parse_sound recv r (ap (λ p. p.1) e)))

abbrev cut : RecvData → RecvData
cut recv = record recv { buffer = take recv.length recv.buffer }

get_or-cut :
    (recv : RecvData) (i : ℕ)
    → i < recv.length
    → get_or (cut recv).buffer i 0 ≡ get_or recv.buffer i 0
get_or-cut recv i h = get_or-take recv.length i recv.buffer 0 h

read_u32-cut :
    (recv : RecvData) (o : ℕ)
    → o + 4 ≤ recv.length
    → read_u32 (cut recv).buffer o ≡ read_u32 recv.buffer o
read_u32-cut recv o h = rw (
  get_or-cut recv o (omega arith),
  get_or-cut recv (o + 1) (omega arith),
  get_or-cut recv (o + 2) (omega arith),
  get_or-cut recv (o + 3) (omega arith),
)

assign_data-cut :
    (r : ResolverRequest) (recv : RecvData) (o n : ℕ)
    → assign_data r (cut recv) o n ≡ assign_data r recv o n
unfolding assign_data
assign_data-cut r recv o n = ground (arith, take-drop-take n o recv.length recv.buffer)

parse_tagged-cut :
    (r : ResolverRequest) (recv : RecvData) → parse_tagged r (cut recv) ≡ parse_tagged r recv
unfolding parse_tagged
parse_tagged-cut r recv = elim (Bool-cases (ltb recv.length 7)) [
  | inl small ↦ rw (small, parse_tagged)
  | inr enough ↦
      rw (enough, parse_tagged, get_or-cut recv 6 (ground arith))
        (assign_data-cut r recv 7 (get_or recv.buffer 6 0))
]

parse_cnam-cut :
    (r : ResolverRequest) (recv : RecvData) → parse_cnam r (cut recv) ≡ parse_cnam r recv
unfolding parse_cnam
parse_cnam-cut r recv = elim (Bool-cases (ltb recv.length 10)) [
  | inl small ↦ rw (small, parse_cnam)
  | inr enough ↦
      rw (enough, parse_cnam, read_u32-cut recv 6 (ground arith))
        (assign_data-cut r recv 10 (read_u32 recv.buffer 6))
]

parse_type-cut :
    (r : ResolverRequest) (recv : RecvData) (t : ℕ)
    → parse_type r (cut recv) t ≡ parse_type r recv t
parse_type-cut r recv t =
    unfold parse_type in ground (arith, parse_tagged-cut r recv, parse_cnam-cut r recv)

-- The parser gives the same when the buffer is cut off at the end of the datagram.
parse-take :
    (recv : RecvData) (r : ResolverRequest)
    → parse (record recv { buffer = take recv.length recv.buffer }) r ≡ parse recv r
unfolding parse
parse-take recv r = elim (Bool-cases (ltb recv.length 6)) [
  | inl small ↦ rw (small, parse)
  | inr enough ↦
      rw
        (
          enough,
          parse,
          get_or-cut recv 4 (ground arith),
          get_or-cut recv 5 (ground arith),
          read_u32-cut recv 0 (ground arith),
        )
        (parse_type-cut (with_header r recv) recv (get_or recv.buffer 5 0))
]
