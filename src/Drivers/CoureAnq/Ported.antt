-- ===== src/Drivers/CoureAnq/Ported.antt =====
-- The switch on "IsPorted" in a reply.
use yeti_lnp_resolver.Base.{
  ◌≡◌, ◌≢◌, refl, ◌∙◌, ◌⊎◌, inl, inr, false, some, List, [], ◌∷◌, Bytes, codes, c_str, ℤ, pos, eq_ℤ,
  eq_ℤ_iff, Bool-cases,
}
use yeti_lnp_resolver.Base.Decimal.{to_string}
use yeti_lnp_resolver.Types.{ResolverRequest, driver_error}
use yeti_lnp_resolver.Drivers.Json.{
  JsonLibrary, json_object, json_number, json_array, get_json_int, get_json_string, get_by_key,
}
use yeti_lnp_resolver.Drivers.Json.Laws.{HasText, strip_quotes-Lacks}
use yeti_lnp_resolver.Drivers.Http.Laws.{IsPlain}
use yeti_lnp_resolver.Drivers.CoureAnq.{
  resolve_operator, CoureAnqCfg, result_item, ported_result, on_ported, parse,
}

module _ (j : JsonLibrary) where
  -- The body is an object whose "Result" is an array that begins with the object `d`, and that has
  -- the number under "IsPorted".
  pub record IsReply (body : Bytes) (d : j.Node) (is_ported : ℤ) : Type 0 where
    pub root : j.Node
    pub array : j.Node
    pub ported : j.Node
    pub name : Bytes
    pub others : List (Bytes × j.Node)
    pub parsed : j.parse_json (c_str body) ≡ some root
    pub root_object : j.type_of root ≡ json_object
    pub has_result : j.get_object_item root (codes "Result") ≡ some array
    pub result_array : j.type_of array ≡ json_array
    pub first : j.child array ≡ (name, d) ∷ others
    pub first_object : j.type_of d ≡ json_object
    pub has_ported : j.get_object_item d (codes "IsPorted") ≡ some ported
    pub ported_number : j.type_of ported ≡ json_number
    pub ported_value : j.valueint ported ≡ is_ported

  parse-on_ported :
      (c : CoureAnqCfg) (body : Bytes) (r : ResolverRequest) (d : j.Node) (is_ported : ℤ)
      → IsReply body d is_ported
      → parse j c body r
        ≡ on_ported j c.operators_map r d (record r.result { raw_data = body }) is_ported
  unfolding parse result_item get_by_key get_json_int
  parse-on_ported c body r d is_ported v =
      rw
        (
          v.parsed, v.root_object, v.has_result, v.result_array, v.first, v.first_object,
          v.has_ported, v.first_object, v.ported_number, v.ported_value,
        )
        refl

  get_text :
      (d : j.Node) (key text : Bytes)
      → j.type_of d ≡ json_object
      → HasText j d key text
      → IsPlain text
      → (i : j.Node) × (get_by_key j d key ≡ some i) × (get_json_string j i ≡ some text)
  unfolding get_by_key get_json_string
  get_text d key text o (i, has, type, value) p =
      (i, rw (o, has), rw (type, value) (strip_quotes-Lacks text p.0 p.1))

  -- Of a reply whose first result has a number under "IsPorted": with 1, and plain strings under
  -- "Number" and "TheOperator", the result is that number and the tag of that operator; with 0 or
  -- 2 it is the number asked for, without a tag; with any other number the driver throws.
  pub parse-IsReply :
      (c : CoureAnqCfg) (body : Bytes) (r : ResolverRequest) (d : j.Node) (is_ported : ℤ)
      → IsReply body d is_ported
      → ((number operator_name : Bytes)
          → is_ported ≡ pos 1
          → HasText j d (codes "Number") number
          → IsPlain number
          → HasText j d (codes "TheOperator") operator_name
          → IsPlain operator_name
          → parse j c body r
            ≡ inr (record {
              local_routing_number = number;
              local_routing_tag = to_string (resolve_operator c.operators_map operator_name);
              raw_data = body;
            }))
        × ((is_ported ≡ pos 0) ⊎ (is_ported ≡ pos 2)
            → parse j c body r
              ≡ inr (record {
                local_routing_number = r.number;
                local_routing_tag = [];
                raw_data = body;
              }))
        × (is_ported ≢ pos 0
            → is_ported ≢ pos 1
            → is_ported ≢ pos 2
            → parse j c body r
              ≡ inl (driver_error (codes "unexpected ported \"IsPorted\" value in reply")))
  unfolding on_ported ported_result
  parse-IsReply c body r d is_ported v = (
    λ number operator_name e hn pn ho po.
        let (i, has_i, text_i) = get_text d (codes "Number") number v.first_object hn pn in
        let (k, has_k, text_k) =
          get_text d (codes "TheOperator") operator_name v.first_object ho po in
        parse-on_ported c body r d is_ported v ∙ rw (e, has_i, text_i, has_k, text_k) refl,
    λ e. parse-on_ported c body r d is_ported v ∙ unported e,
    λ n0 n1 n2.
        parse-on_ported c body r d is_ported v
        ∙ rw (differs (pos 1) n1, differs (pos 0) n0, differs (pos 2) n2) refl,
  )
    where
      differs : (x : ℤ) → is_ported ≢ x → eq_ℤ is_ported x ≡ false
      differs x ne = elim (Bool-cases (eq_ℤ is_ported x)) [
        | inl same ↦ absurd (ne ((eq_ℤ_iff is_ported x).0 same))
        | inr other ↦ other
      ]

      unported :
          (is_ported ≡ pos 0) ⊎ (is_ported ≡ pos 2)
          → on_ported j c.operators_map r d (record r.result { raw_data = body }) is_ported
            ≡ inr (record {
              local_routing_number = r.number;
              local_routing_tag = [];
              raw_data = body;
            })
      unported (inl e) = rw e refl
      unported (inr e) = rw e refl
