-- ===== src/Drivers/Config/Validity.antt =====
-- What the drivers' configurations hold once their constructors have returned.
use mathlib.Core.Path.{subst}
use yeti_lnp_resolver.Base.{
  ◌≡◌, ◌≢◌, refl, sym, ◌∙◌, ℕ, ◌<◌, [], ◌∷◌, Bytes, codes, ◌⊎◌, inl, inr, ℤ, pos, negsuc, eq_ℤ,
  eq_ℤ_iff, Bool-cases, arith,
}
use yeti_lnp_resolver.Drivers.Json.{JsonLibrary, is_number, item}
use yeti_lnp_resolver.Drivers.Select.{
  Format, invalid, separate_columns_v1, separate_columns_v2, json_format, not_supported,
}
use yeti_lnp_resolver.Drivers.Http.{ThinqCfg}
use yeti_lnp_resolver.Drivers.Config.{
  ◌>>=◌, ConfigRow, DriverCfg, driver_cfg, known_id, not_empty, to_unsigned, item_unsigned,
  get_raw_uniq_id, get_raw_label, get_raw_port, get_raw_host, get_raw_timeout, get_raw_user_name,
  get_json_port, get_json_host, get_json_timeout, get_json_user_name,
}
use yeti_lnp_resolver.Drivers.Config.Constructors.{
  get_raw_token, get_json_text, parameters, thinq_json, thinq_columns, thinq_members, thinq_cfg,
}

bind-inr :
    {A B : Type 0} (x : Bytes ⊎ A) (f : A → Bytes ⊎ B) (b : B)
    → (x >>= f) ≡ inr b
    → (a : A) × (x ≡ inr a) × (f a ≡ inr b)
bind-inr (inl what) f b e = cc
bind-inr (inr a) f b e = (a, refl, e)

inr_injective : {A : Type 0} (a b : A) → (◌≡◌ {A = Bytes ⊎ A} (inr a) (inr b)) → a ≡ b
inr_injective a b e = cc

not_empty-inr : (what s t : Bytes) → not_empty what s ≡ inr t → t ≢ []
not_empty-inr what [] t e = cc
not_empty-inr what (c ∷ cs) t e = λ empty. cc

known_id-inr : (i k : ℤ) → known_id i ≡ inr k → k ≢ negsuc 0
known_id-inr i k e = elim (Bool-cases (eq_ℤ i (negsuc 0))) [
  | inl unset ↦ cc (rw unset at e)
  | inr set ↦
      let same : i ≡ k = cc (rw set at e) in
      λ none. ground (arith, eq_ℤ_iff i (negsuc 0), same, none, set)
]

-- The identifier is set, and the label is not empty.
driver_cfg-inr :
    (f : Format) (row : ConfigRow) (c : DriverCfg)
    → driver_cfg f row ≡ inr c
    → (c.uniq_id ≢ negsuc 0) × (c.label ≢ [])
unfolding driver_cfg
driver_cfg-inr f row c e =
    let (i, _, e1) = bind-inr (get_raw_uniq_id f row) _ c e in
    let (k, known, e2) = bind-inr (known_id i) _ c e1 in
    let (raw, _, e3) = bind-inr (get_raw_label f row) _ c e2 in
    let (label, named, e4) = bind-inr (not_empty _ raw) _ c e3 in
    let id : c.uniq_id ≡ k = cc in
    let name : c.label ≡ label = cc in
    rw (id, name) (known_id-inr i k known, not_empty-inr _ raw label named)

-- `as<uint16_t>` of a column throws where the value does not fit.
abbrev pub HasPorts : ConfigRow → Type 0
HasPorts row = (key : Bytes) (n : ℕ) → row.uint16_of key 0 ≡ inr n → n < 65536

to_unsigned_port : (v : ℤ) → to_unsigned 16 v < 65536
unfolding to_unsigned
to_unsigned_port (pos n) = omega arith
to_unsigned_port (negsuc n) = omega arith

get_raw_port_lt :
    (f : Format) (row : ConfigRow) (n : ℕ) → HasPorts row → get_raw_port f row ≡ inr n → n < 65536
unfolding get_raw_port
get_raw_port_lt invalid row n h e = ground arith
get_raw_port_lt separate_columns_v1 row n h e = h _ n e
get_raw_port_lt separate_columns_v2 row n h e = h _ n e
get_raw_port_lt json_format row n h e = ground arith
get_raw_port_lt not_supported row n h e = ground arith

-- The members of a ThinQ configuration that the request is made of.
abbrev pub IsThinq : ThinqCfg → Type 0
IsThinq c = (c.host ≢ []) × (c.user_name ≢ []) × (c.token ≢ []) × (c.port < 65536)

module _ (j : JsonLibrary) where
  open j use {Node, type_of, valueint}

  item_unsigned_port : (i : Node) → item_unsigned j 16 i < 65536
  unfolding item_unsigned
  item_unsigned_port i = elim (Bool-cases (is_number (type_of i))) [
    | inl number ↦ rw number (to_unsigned_port (valueint i))
    | inr other ↦ rw other (omega arith)
  ]

  get_json_port_lt : (f : Format) (n : Node) (p : ℕ) → get_json_port j f n ≡ inr p → p < 65536
  unfolding get_json_port
  get_json_port_lt invalid n p e = ground arith
  get_json_port_lt separate_columns_v1 n p e = ground arith
  get_json_port_lt separate_columns_v2 n p e = ground arith
  get_json_port_lt json_format n p e =
      let (i, _, found) = bind-inr (item j n (codes "port")) _ p e in
      let same : item_unsigned j 16 i ≡ p = cc in subst (λ q. q < 65536) same (item_unsigned_port i)
  get_json_port_lt not_supported n p e = ground arith

  thinq_json-inr :
      (f : Format) (row : ConfigRow) (base : DriverCfg) (c : ThinqCfg)
      → thinq_json j f row base ≡ inr c
      → IsThinq c × (c.uniq_id ≡ base.uniq_id)
  unfolding thinq_json
  thinq_json-inr f row base c e =
      let (n, _, e1) = bind-inr (parameters j row) _ c e in
      let (h, _, e2) = bind-inr (get_json_host j f n) _ c e1 in
      let (host, host_ok, e3) = bind-inr (not_empty _ h) _ c e2 in
      let (u, _, e4) = bind-inr (get_json_user_name j f n) _ c e3 in
      let (user_name, user_name_ok, e5) = bind-inr (not_empty _ u) _ c e4 in
      let (t, _, e6) = bind-inr (get_json_text j f n _) _ c e5 in
      let (token, token_ok, e7) = bind-inr (not_empty _ t) _ c e6 in
      let (port, port_ok, e8) = bind-inr (get_json_port j f n) _ c e7 in
      let (timeout, _, e9) = bind-inr (get_json_timeout j f n) _ c e8 in
      subst (λ d. IsThinq d × (d.uniq_id ≡ base.uniq_id)) (inr_injective _ c e9)
        (
          (
            not_empty-inr _ h host host_ok,
            not_empty-inr _ u user_name user_name_ok,
            not_empty-inr _ t token token_ok,
            get_json_port_lt f n port port_ok,
          ),
          refl,
        )

  thinq_columns-inr :
      (f : Format) (row : ConfigRow) (base : DriverCfg) (c : ThinqCfg)
      → HasPorts row
      → thinq_columns j f row base ≡ inr c
      → IsThinq c × (c.uniq_id ≡ base.uniq_id)
  unfolding thinq_columns
  thinq_columns-inr f row base c ports e =
      let (h, _, e2) = bind-inr (get_raw_host f row) _ c e in
      let (host, host_ok, e3) = bind-inr (not_empty _ h) _ c e2 in
      let (u, _, e4) = bind-inr (get_raw_user_name f row) _ c e3 in
      let (user_name, user_name_ok, e5) = bind-inr (not_empty _ u) _ c e4 in
      let (t, _, e6) = bind-inr (get_raw_token f row) _ c e5 in
      let (token, token_ok, e7) = bind-inr (not_empty _ t) _ c e6 in
      let (port, port_ok, e8) = bind-inr (get_raw_port f row) _ c e7 in
      let (timeout, _, e9) = bind-inr (get_raw_timeout f row) _ c e8 in
      subst (λ d. IsThinq d × (d.uniq_id ≡ base.uniq_id)) (inr_injective _ c e9)
        (
          (
            not_empty-inr _ h host host_ok,
            not_empty-inr _ u user_name user_name_ok,
            not_empty-inr _ t token token_ok,
            get_raw_port_lt f row port ports port_ok,
          ),
          refl,
        )

  thinq_members-inr :
      (f : Format) (row : ConfigRow) (base : DriverCfg) (c : ThinqCfg)
      → HasPorts row
      → thinq_members j f row base ≡ inr c
      → IsThinq c × (c.uniq_id ≡ base.uniq_id)
  thinq_members-inr invalid row base c ports e = thinq_columns-inr invalid row base c ports e
  thinq_members-inr separate_columns_v1 row base c ports e =
      thinq_columns-inr separate_columns_v1 row base c ports e
  thinq_members-inr separate_columns_v2 row base c ports e =
      thinq_columns-inr separate_columns_v2 row base c ports e
  thinq_members-inr json_format row base c ports e = thinq_json-inr json_format row base c e
  thinq_members-inr not_supported row base c ports e =
      thinq_columns-inr not_supported row base c ports e

  -- A ThinQ configuration that is constructed, from a row in any format, has an identifier other
  -- than -1, a host, a user name and a token that are not empty, and a port of 16 bits, if `as` of
  -- a column gives ports of 16 bits.
  thinq_cfg-IsThinq :
      (f : Format) (row : ConfigRow) (c : ThinqCfg)
      → HasPorts row
      → thinq_cfg j f row ≡ inr c
      → IsThinq c × (c.uniq_id ≢ negsuc 0)
  unfolding thinq_cfg
  thinq_cfg-IsThinq f row c ports e =
      let (base, base_ok, made) = bind-inr (driver_cfg f row) _ c e in
      let (valid, same) = thinq_members-inr f row base c ports made in
      (valid, λ unset. (driver_cfg-inr f row base base_ok).0 (sym same ∙ unset))
