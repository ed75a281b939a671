-- ===== src/Drivers/Config/Ids.antt =====
-- The id of the HTTP request that a driver makes.
use mathlib.Core.Path.{subst}
use yeti_lnp_resolver.Base.{
  ◌≡◌, refl, ℕ, Option, none, some, Bytes, c_str, ◌⊎◌, inl, inr, Bool-cases,
}
use yeti_lnp_resolver.Types.{ResolverRequest, HttpRequest, Exception}
use yeti_lnp_resolver.Resolver.State.{Driver, Action, finish, fetch, raise}
use yeti_lnp_resolver.Drivers.Json.{JsonLibrary, is_object}
use yeti_lnp_resolver.Drivers.Select.{
  DriverId, null_driver, sip, http_thinq, mhash_csv, http_alcazar, http_coure_anq, cnam_http,
  http_bulkvs, Format,
}
use yeti_lnp_resolver.Drivers.Sip as Sip
use yeti_lnp_resolver.Drivers.Csv as Csv
use yeti_lnp_resolver.Drivers.Http as Http
use yeti_lnp_resolver.Drivers.CoureAnq as CoureAnq
use yeti_lnp_resolver.Drivers.Cnam as Cnam
use yeti_lnp_resolver.Drivers.Config.{ConfigRow, DriverCfg}
use yeti_lnp_resolver.Drivers.Config.Construct.{
  Surroundings, driver_of, csv_loaded, csv_driver_of, construct,
}
use yeti_lnp_resolver.Drivers.Config.Constructors.{sip_cfg, thinq_cfg, alcazar_cfg}
use yeti_lnp_resolver.Drivers.Config.Parameters.{bulkvs_cfg, csv_cfg, coure_anq_cfg, cnam_cfg}

-- An action that is no HTTP request, or one with the id.
abbrev HasId : ℕ → Action → Type 0
HasId id (fetch h) = h.id ≡ id
HasId id _ = Unit

HasId-fetch : (id : ℕ) (a : Action) (h : HttpRequest) → HasId id a → a ≡ fetch h → h.id ≡ id
HasId-fetch id (fetch g) h same e = cc
HasId-fetch id (finish result) h same e = cc
HasId-fetch id (raise x) h same e = cc

abbrev AllHaveId : Driver → Type 0
AllHaveId d = (r : ResolverRequest) → HasId r.id (d.resolve r)

driver_of-AllHaveId :
    {A : Type 0} (make : A → Driver) (x : Bytes ⊎ A) (d : Driver)
    → ((a : A) → AllHaveId (make a))
    → driver_of make x ≡ some d
    → AllHaveId d
driver_of-AllHaveId make (inl what) d all e = cc
driver_of-AllHaveId make (inr a) d all e =
    let same : make a ≡ d = cc in subst AllHaveId same (all a)

finish_parsed-HasId : (id : ℕ) (x : Exception ⊎ _) → HasId id (Sip.finish_parsed x)
finish_parsed-HasId id (inl e) = tt
finish_parsed-HasId id (inr result) = tt

finish_performed-HasId :
    (id : ℕ) (r : ResolverRequest) (x : Exception ⊎ Sip.ReplyData)
    → HasId id (Sip.finish_performed r x)
finish_performed-HasId id r (inl e) = tt
finish_performed-HasId id r (inr reply) = elim (Bool-cases reply.processed) [
  | inl done ↦ rw done (finish_parsed-HasId id _)
  | inr not_done ↦ rw not_done tt
]

sip_driver-AllHaveId :
    (stack : Bytes → Sip.SipEvent) (c : Sip.SipCfg) → AllHaveId (Sip.sip_driver stack c)
unfolding Sip.sip_driver Sip.resolve
sip_driver-AllHaveId stack c =
    λ r. finish_performed-HasId r.id r (Sip.perform (stack (c_str (Sip.dst_uri c r))))

csv_loaded-AllHaveId :
    (base : DriverCfg) (x : Csv.Loaded Csv.Hash) (d : Driver)
    → csv_loaded base x ≡ some d
    → AllHaveId d
unfolding Csv.csv_driver Csv.resolve
csv_loaded-AllHaveId base (Csv.ok hash) d e =
    let same : Csv.csv_driver base.uniq_id hash ≡ d = cc in subst AllHaveId same (λ r. tt)
csv_loaded-AllHaveId base (Csv.err x) d e = cc

csv_driver_of-AllHaveId :
    (w : Surroundings) (x : Bytes ⊎ (DriverCfg × Bytes)) (d : Driver)
    → csv_driver_of w x ≡ some d
    → AllHaveId d
csv_driver_of-AllHaveId w (inl what) d e = cc
csv_driver_of-AllHaveId w (inr (base, path)) d e = csv_loaded-AllHaveId base _ d e

module _ (j : JsonLibrary) where
  open j use {Node, parse_json, type_of}

  cnam_request-HasId :
      (c : Cnam.CnamCfg) (r : ResolverRequest) (x : Exception ⊎ Bytes)
      → HasId r.id (Cnam.cnam_request j c r x)
  unfolding Cnam.cnam_request
  cnam_request-HasId c r (inl e) = tt
  cnam_request-HasId c r (inr url) = refl

  resolve_json-HasId :
      (c : Cnam.CnamCfg) (r : ResolverRequest) (o : Option Node)
      → HasId r.id (Cnam.resolve_json j c r o)
  unfolding Cnam.resolve_json
  resolve_json-HasId c r none = tt
  resolve_json-HasId c r (some n) = elim (Bool-cases (is_object (type_of n))) [
    | inl object ↦ rw object (cnam_request-HasId c r (Cnam.get_url j n c.uri_parts))
    | inr other ↦ rw other tt
  ]

  cnam_driver-AllHaveId : (c : Cnam.CnamCfg) → AllHaveId (Cnam.cnam_driver j c)
  unfolding Cnam.cnam_driver Cnam.resolve
  cnam_driver-AllHaveId c = λ r. resolve_json-HasId c r (parse_json (c_str r.number))

  thinq_driver-AllHaveId : (c : Http.ThinqCfg) → AllHaveId (Http.thinq_driver j c)
  unfolding Http.thinq_driver Http.thinq_resolve
  thinq_driver-AllHaveId c = λ r. refl

  alcazar_driver-AllHaveId : (c : Http.AlcazarCfg) → AllHaveId (Http.alcazar_driver j c)
  unfolding Http.alcazar_driver Http.alcazar_resolve
  alcazar_driver-AllHaveId c = λ r. refl

  bulkvs_driver-AllHaveId : (c : Http.BulkvsCfg) → AllHaveId (Http.bulkvs_driver j c)
  unfolding Http.bulkvs_driver Http.bulkvs_resolve
  bulkvs_driver-AllHaveId c = λ r. refl

  coure_anq_driver-AllHaveId :
      (c : CoureAnq.CoureAnqCfg) → AllHaveId (CoureAnq.coure_anq_driver j c)
  unfolding CoureAnq.coure_anq_driver CoureAnq.resolve
  coure_anq_driver-AllHaveId c = λ r. refl

  construct-AllHaveId :
      (w : Surroundings) (f : Format) (row : ConfigRow) (id : DriverId) (d : Driver)
      → construct j w f row id ≡ some d
      → AllHaveId d
  unfolding construct
  construct-AllHaveId w f row null_driver d e = cc
  construct-AllHaveId w f row sip d e =
      driver_of-AllHaveId (Sip.sip_driver w.sip_stack) (sip_cfg j f row) d
        (sip_driver-AllHaveId w.sip_stack) e
  construct-AllHaveId w f row http_thinq d e =
      driver_of-AllHaveId (Http.thinq_driver j) (thinq_cfg j f row) d thinq_driver-AllHaveId e
  construct-AllHaveId w f row mhash_csv d e = csv_driver_of-AllHaveId w (csv_cfg j f row) d e
  construct-AllHaveId w f row http_alcazar d e =
      driver_of-AllHaveId (Http.alcazar_driver j) (alcazar_cfg j f row) d alcazar_driver-AllHaveId e
  construct-AllHaveId w f row http_coure_anq d e =
      driver_of-AllHaveId (CoureAnq.coure_anq_driver j) (coure_anq_cfg j f row) d
        coure_anq_driver-AllHaveId e
  construct-AllHaveId w f row cnam_http d e =
      driver_of-AllHaveId (Cnam.cnam_driver j) (cnam_cfg j f row) d cnam_driver-AllHaveId e
  construct-AllHaveId w f row http_bulkvs d e =
      driver_of-AllHaveId (Http.bulkvs_driver j) (bulkvs_cfg j w.memory f row) d
        bulkvs_driver-AllHaveId e

  -- Every driver that a database row gives, of whichever kind, puts the id of the resolver's
  -- request into the HTTP request it makes, if it makes one.
  pub construct-id :
      (w : Surroundings) (f : Format) (row : ConfigRow) (kind : DriverId) (d : Driver)
      (r : ResolverRequest) (h : HttpRequest)
      → construct j w f row kind ≡ some d
      → d.resolve r ≡ fetch h
      → h.id ≡ r.id
  construct-id w f row kind d r h e made =
      HasId-fetch r.id (d.resolve r) h (construct-AllHaveId w f row kind d e r) made
