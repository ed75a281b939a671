-- ===== src/Resolver/Replies.antt =====
-- The datagrams of the resolver as a client reads them: `struct reply_hdr_tagged`,
-- `reply_hdr_tagged_err` and `reply_hdr_cnam` of src/resolver/Resolver.cpp.
use yeti_lnp_resolver.Base.{
  ℕ, ◌+◌, ◌-◌, ◌≤◌, ◌<◌, ◌≡◌, ◌≢◌, refl, some, [], ◌++◌, Bytes, arith, length, get_or, take, drop,
  read_u32, write_u32, ℤ, pos, negsuc, length-append, take-append, drop-append, take_all,
}
use yeti_lnp_resolver.Types.{ResolverRequest, ErrorId, error_code}
use yeti_lnp_resolver.Resolver.Reply.{
  tagged_reply, json_reply, tagged_error_reply, json_error_reply, reply_of, error_reply_of,
}

-- What a client reads of a tagged reply.
abbrev pub reply_id : Bytes → ℕ
reply_id b = read_u32 b 0

abbrev pub reply_code : Bytes → ℕ
reply_code b = get_or b 4 0

abbrev pub reply_lrn : Bytes → Bytes
reply_lrn b = take (get_or b 6 0) (drop 7 b)

abbrev pub reply_tag : Bytes → Bytes
reply_tag b = take (get_or b 5 0 - get_or b 6 0) (drop (get_or b 6 0) (drop 7 b))

-- A tagged reply gives back the request's id, code 0, the routing number and the tag, if the id
-- has 32 bits and number and tag together are shorter than 256 bytes.
pub tagged_reply_decodes :
    (r : ResolverRequest)
    → r.id < 4294967296
    → length r.result.local_routing_number + length r.result.local_routing_tag < 256
    → (reply_id (tagged_reply r) ≡ r.id)
      × (reply_code (tagged_reply r) ≡ 0)
      × (reply_lrn (tagged_reply r) ≡ r.result.local_routing_number)
      × (reply_tag (tagged_reply r) ≡ r.result.local_routing_tag)
unfolding tagged_reply
tagged_reply_decodes r hid hlen =
    let lrn = r.result.local_routing_number in
    let tag = r.result.local_routing_tag in
    (
      omega arith,
      refl,
      ground (arith, take-append lrn tag),
      ground (arith, drop-append lrn tag, take_all (length tag) tag),
    )

-- If routing number and tag together have 256 bytes or more, the tagged reply announces fewer
-- bytes than it carries.
tagged_reply_truncates :
    (r : ResolverRequest)
    → 256 ≤ length r.result.local_routing_number + length r.result.local_routing_tag
    → get_or (tagged_reply r) 5 0 < length (drop 7 (tagged_reply r))
unfolding tagged_reply
tagged_reply_truncates r h =
    omega (arith, length-append r.result.local_routing_number r.result.local_routing_tag)

-- A CNAM reply gives back the request's id, the length of the JSON text and the text, if the id
-- and the length have 32 bits.
json_reply_decodes :
    (r : ResolverRequest)
    → r.id < 4294967296
    → length r.result.raw_data < 4294967296
    → (reply_id (json_reply r) ≡ r.id)
      × (read_u32 (json_reply r) 4 ≡ length r.result.raw_data)
      × (drop 8 (json_reply r) ≡ r.result.raw_data)
unfolding json_reply
json_reply_decodes r hid hlen = (omega arith, omega arith, refl)

-- An error reply to a tagged request gives back the id, the error's code and the description, if
-- the id has 32 bits and the description is shorter than 256 bytes.
tagged_error_reply_decodes :
    (r : ResolverRequest) (code : ErrorId) (description : Bytes)
    → r.id < 4294967296
    → length description < 256
    → (reply_id (tagged_error_reply r code description) ≡ r.id)
      × (reply_code (tagged_error_reply r code description) ≡ error_code code)
      × (take
            (get_or (tagged_error_reply r code description) 5 0)
            (drop 6 (tagged_error_reply r code description))
          ≡ description)
unfolding tagged_error_reply
tagged_error_reply_decodes r code description hid hlen =
    (omega arith, refl, ground (arith, take_all (length description) description))

-- A reply for the request `id`: the id, then at least one more byte.
abbrev pub IsReplyTo : ℕ → Bytes → Type 0
IsReplyTo id b = (body : Bytes) × (b ≡ write_u32 id ++ body) × (body ≢ [])

pub reply_of-IsReplyTo :
    (t : ℤ) (r : ResolverRequest) (b : Bytes) → reply_of t r ≡ some b → IsReplyTo r.id b
unfolding reply_of tagged_reply json_reply
reply_of-IsReplyTo (negsuc t) r b e = cc
reply_of-IsReplyTo (pos t) r b e = (drop 4 b, ground arith, ground arith)

pub error_reply_of-IsReplyTo :
    (t : ℤ) (r : ResolverRequest) (code : ErrorId) (description b : Bytes)
    → error_reply_of t r code description ≡ some b
    → IsReplyTo r.id b
unfolding error_reply_of tagged_error_reply json_error_reply
error_reply_of-IsReplyTo (negsuc t) r code description b e = cc
error_reply_of-IsReplyTo (pos t) r code description b e = (drop 4 b, ground arith, ground arith)
