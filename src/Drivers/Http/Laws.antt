-- ===== src/Drivers/Http/Laws.antt =====
-- What the three drivers read of a reply.
use yeti_lnp_resolver.Base.{◌≡◌, ◌≢◌, refl, inl, inr, some, [], Bytes, codes, Lacks, c_str}
use yeti_lnp_resolver.Types.{ResolverRequest, driver_error}
use yeti_lnp_resolver.Drivers.Json.{JsonLibrary, json_object, jsonxx}
use yeti_lnp_resolver.Drivers.Json.Laws.{HasText, string_at-HasText, string_at_empty}
use yeti_lnp_resolver.Drivers.Http.{thinq_parse, alcazar_parse, bulkvs_parse}

-- The reply is a JSON object.
abbrev pub IsObject : (j : JsonLibrary) → Bytes → j.Node → Type 0
IsObject j body n = (j.parse_json (c_str body) ≡ some n) × (j.type_of n ≡ json_object)

-- A text that is read as it is: not empty, and without quotes.
abbrev pub IsPlain : Bytes → Type 0
IsPlain text = (text ≢ []) × Lacks b'"' text

-- Of a JSON object with plain strings under "LRN" and "JURISDICTION" the Alcazar driver takes the
-- first as the routing number, the second as the tag and the whole reply as raw data.
alcazar_parse-IsObject :
    (j : JsonLibrary) (body lrn tag : Bytes) (n : j.Node) (r : ResolverRequest)
    → IsObject j body n
    → HasText j n (codes "LRN") lrn
    → IsPlain lrn
    → HasText j n (codes "JURISDICTION") tag
    → IsPlain tag
    → alcazar_parse j body r
      ≡ inr (record { local_routing_number = lrn; local_routing_tag = tag; raw_data = body })
unfolding alcazar_parse jsonxx
alcazar_parse-IsObject j body lrn tag n r o hl pl ht pt =
    rw
      (
        o.0,
        string_at-HasText j n (codes "LRN") lrn o.1 hl pl.0 pl.1,
        string_at-HasText j n (codes "JURISDICTION") tag o.1 ht pt.0 pt.1,
      )
      refl

-- On a JSON object with a plain string under "LRN" and an empty one under "JURISDICTION" the
-- Alcazar driver throws.
alcazar_parse_empty_tag :
    (j : JsonLibrary) (body lrn : Bytes) (n : j.Node) (r : ResolverRequest)
    → IsObject j body n
    → HasText j n (codes "LRN") lrn
    → IsPlain lrn
    → HasText j n (codes "JURISDICTION") []
    → alcazar_parse j body r ≡ inl (driver_error j.out_of_range_what)
unfolding alcazar_parse jsonxx
alcazar_parse_empty_tag j body lrn n r o hl pl ht =
    rw
      (
        o.0,
        string_at-HasText j n (codes "LRN") lrn o.1 hl pl.0 pl.1,
        string_at_empty j n (codes "JURISDICTION") o.1 ht,
      )
      refl

-- Of a JSON object the ThinQ driver takes a plain string under "lrn", and the Bulkvs driver one
-- under "name", as the routing number; the whole reply is the raw data, and the tag stays.
lrn_parse-IsObject :
    (j : JsonLibrary) (body lrn : Bytes) (n : j.Node) (r : ResolverRequest)
    → IsObject j body n
    → IsPlain lrn
    → let result = record r.result { local_routing_number = lrn; raw_data = body } in
      (HasText j n (codes "lrn") lrn → thinq_parse j body r ≡ inr result)
      × (HasText j n (codes "name") lrn → bulkvs_parse j body r ≡ inr result)
unfolding thinq_parse bulkvs_parse jsonxx
lrn_parse-IsObject j body lrn n r o p = (
  λ h. rw (o.0, string_at-HasText j n (codes "lrn") lrn o.1 h p.0 p.1) refl,
  λ h. rw (o.0, string_at-HasText j n (codes "name") lrn o.1 h p.0 p.1) refl,
)
