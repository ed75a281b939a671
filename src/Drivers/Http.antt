-- ===== src/Drivers/Http.antt =====
-- src/drivers/HttpThinqDriver.cpp, HttpAlcazarDriver.cpp and HttpBulkvsDriver.cpp: the request each
-- sends for a number, and what each reads of the reply.
pub mod Laws
use yeti_lnp_resolver.Base.{
  ℕ, Bool, true, false, Option, none, some, List, [], ◌∷◌, ◌++◌, Bytes, codes, ◌==◌, if◌then◌else◌,
  ◌⊎◌, inl, inr, ℤ, pos, c_str,
}
use yeti_lnp_resolver.Base.Decimal.{to_string}
use yeti_lnp_resolver.Types.{
  ResolverRequest, SResult, HttpRequest, AuthType, auth_none, auth_basic, Exception, driver_error,
}
use yeti_lnp_resolver.Resolver.State.{Action, fetch, Driver}
use yeti_lnp_resolver.Drivers.Json.{JsonLibrary, jsonxx, string_at, ◌>>=◌}

abbrev pub json_header : Bytes
json_header = codes "Content-Type: application/json"

-- `<< ":" << port`, if there is a port.
abbrev pub port_part : ℕ → Bytes
port_part port = if port == 0 then [] else codes ":" ++ to_string port

pub record ThinqCfg : Type 0 where
  pub uniq_id : ℤ
  pub host : Bytes
  pub user_name : Bytes
  pub token : Bytes
  pub port : ℕ
  pub timeout : ℕ

pub record AlcazarCfg : Type 0 where
  pub uniq_id : ℤ
  pub host : Bytes
  pub key : Bytes
  pub port : ℕ
  pub timeout : ℕ

pub record BulkvsCfg : Type 0 where
  pub uniq_id : ℤ
  pub url : Bytes
  pub token : Bytes
  pub timeout : ℕ
  pub validate_https_cer : Bool

-- `mURLPrefix` of each constructor.
unfoldable pub thinq_prefix : ThinqCfg → Bytes
thinq_prefix c =
    codes "https" ++ (codes "://" ++ (c_str c.host ++ (port_part c.port ++ codes "/lrn/extended/")))

unfoldable pub alcazar_prefix : AlcazarCfg → Bytes
alcazar_prefix c =
    codes "http"
    ++ (codes "://"
        ++ (c_str c.host
            ++ (port_part c.port
                ++ (codes "/api/2.2/lrn?extended=true&output=json"
                    ++ (codes "&key=" ++ (c_str c.key ++ codes "&tn="))))))

unfoldable pub thinq_resolve : ThinqCfg → ResolverRequest → Action
unfolding thinq_prefix
thinq_resolve c r = fetch (record {
  id = r.id;
  url = some (c_str (thinq_prefix c ++ (r.number ++ codes "?format=json")));
  auth_type = auth_basic;
  login = some (c_str c.user_name);
  pass = some (c_str c.token);
  verify_ssl = false;
  timeout_ms = c.timeout;
  headers = json_header ∷ [];
})

unfoldable pub alcazar_resolve : AlcazarCfg → ResolverRequest → Action
unfolding alcazar_prefix
alcazar_resolve c r = fetch (record {
  id = r.id;
  url = some (c_str (alcazar_prefix c ++ r.number));
  auth_type = auth_none;
  login = none;
  pass = none;
  verify_ssl = false;
  timeout_ms = c.timeout;
  headers = json_header ∷ [];
})

unfoldable pub bulkvs_resolve : BulkvsCfg → ResolverRequest → Action
bulkvs_resolve c r = fetch (record {
  id = r.id;
  url = some (
      c_str (
        c.url
        ++ (codes "/?id=" ++ (c.token ++ (codes "&did=" ++ (r.number ++ codes "&format=json"))))));
  auth_type = auth_basic;
  login = none;
  pass = none;
  verify_ssl = c.validate_https_cer;
  timeout_ms = c.timeout;
  headers = [];
})

-- `catch (std::exception & e) { throw error(e.what()); }`, and `rawData = data` behind it.
abbrev pub with_raw_data : Bytes → Bytes ⊎ SResult → Exception ⊎ SResult
with_raw_data body (inl what) = inl (driver_error what)
with_raw_data body (inr result) = inr (record result { raw_data = body })

module _ (j : JsonLibrary) where
  unfoldable pub thinq_parse : Bytes → ResolverRequest → Exception ⊎ SResult
  unfolding jsonxx string_at
  thinq_parse body r = with_raw_data body (do
    n ← jsonxx j body
    lrn ← string_at j n (codes "lrn")
    inr (record r.result { local_routing_number = lrn }))

  unfoldable pub alcazar_parse : Bytes → ResolverRequest → Exception ⊎ SResult
  unfolding jsonxx string_at
  alcazar_parse body r = with_raw_data body (do
    n ← jsonxx j body
    lrn ← string_at j n (codes "LRN")
    tag ← string_at j n (codes "JURISDICTION")
    inr (record r.result { local_routing_number = lrn; local_routing_tag = tag }))

  unfoldable pub bulkvs_parse : Bytes → ResolverRequest → Exception ⊎ SResult
  unfolding jsonxx string_at
  bulkvs_parse body r = with_raw_data body (do
    n ← jsonxx j body
    lrn ← string_at j n (codes "name")
    inr (record r.result { local_routing_number = lrn }))

  unfoldable pub thinq_driver : ThinqCfg → Driver
  unfolding thinq_resolve thinq_parse
  thinq_driver c = record {
    unique_id = c.uniq_id;
    name = codes "REST/ThinQ";
    driver_type = pos 0;
    resolve = thinq_resolve c;
    parse = thinq_parse;
  }

  unfoldable pub alcazar_driver : AlcazarCfg → Driver
  unfolding alcazar_resolve alcazar_parse
  alcazar_driver c = record {
    unique_id = c.uniq_id;
    name = codes "Alcazar Networks";
    driver_type = pos 0;
    resolve = alcazar_resolve c;
    parse = alcazar_parse;
  }

  unfoldable pub bulkvs_driver : BulkvsCfg → Driver
  unfolding bulkvs_resolve bulkvs_parse
  bulkvs_driver c = record {
    unique_id = c.uniq_id;
    name = codes "Buklvs API";
    driver_type = pos 0;
    resolve = bulkvs_resolve c;
    parse = bulkvs_parse;
  }
