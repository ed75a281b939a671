-- ===== src/Resolver/Reply.antt =====
-- The replies of src/resolver/Resolver.cpp: the datagrams that `send_provisional_reply`,
-- `send_reply` and `send_error_reply` hand to the transport.
use yeti_lnp_resolver.Base.{
  ℕ, ◌+◌, ◌/◌, ◌%◌, Option, none, some, [], ◌∷◌, ◌++◌, Bytes, codes, ltb, ◌==◌, if◌then◌else◌,
  length, write_u32, ℤ, pos, negsuc,
}
use yeti_lnp_resolver.Types.{ResolverRequest, ErrorId, no_error, error_code}

-- `(uint8_t) n` and `(uint32_t) n`
abbrev pub u8 : ℕ → ℕ
u8 n = n % 256

abbrev pub u32 : ℕ → ℕ
u32 n = n % 4294967296

unfoldable pub provisional_reply : ResolverRequest → Bytes
provisional_reply r = write_u32 r.id

unfoldable pub tagged_reply : ResolverRequest → Bytes
tagged_reply r =
    let lrn = r.result.local_routing_number in
    let tag = r.result.local_routing_tag in
    write_u32 r.id
    ++ (error_code no_error ∷ u8 (length lrn + length tag) ∷ u8 (length lrn) ∷ (lrn ++ tag))

unfoldable pub json_reply : ResolverRequest → Bytes
json_reply r = write_u32 r.id ++ (write_u32 (u32 (length r.result.raw_data)) ++ r.result.raw_data)

unfoldable pub tagged_error_reply : ResolverRequest → ErrorId → Bytes → Bytes
tagged_error_reply r code description =
    write_u32 r.id ++ (error_code code ∷ u8 (length description) ∷ description)

-- `std::to_string` of an error code, each of which has at most two digits.
unfoldable pub code_digits : ErrorId → Bytes
code_digits code =
    let n = error_code code in
    if ltb n 10 then (48 + n) ∷ [] else (48 + n / 10) ∷ (48 + n % 10) ∷ []

unfoldable pub error_json : ErrorId → Bytes → Bytes
unfolding code_digits
error_json code status =
    codes "{\"error\":{\"code\":"
    ++ (code_digits code ++ (codes ",\"reason\":\"" ++ (status ++ codes "\"}}")))

unfoldable pub json_error_reply : ResolverRequest → ErrorId → Bytes → Bytes
json_error_reply r code status =
    let json = error_json code status in write_u32 r.id ++ (write_u32 (u32 (length json)) ++ json)

-- The switches on the type: a request of another type gets no reply.
unfoldable pub reply_of : ℤ → ResolverRequest → Option Bytes
reply_of (pos t) r =
    if t == 0 then some (tagged_reply r) else if t == 1 then some (json_reply r) else none
reply_of (negsuc t) r = none

unfoldable pub error_reply_of : ℤ → ResolverRequest → ErrorId → Bytes → Option Bytes
error_reply_of (pos t) r code description =
    if t == 0
    then some (tagged_error_reply r code description)
    else if t == 1
    then some (json_error_reply r code description)
    else none
error_reply_of (negsuc t) r code description = none
