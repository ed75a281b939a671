-- ===== src/Tests/Rows.antt =====
-- A database row of a ThinQ driver with JSON parameters.
use yeti_lnp_resolver.Base.{
  ◌≡◌, refl, inl, inr, false, none, some, List, [], ◌∷◌, Bytes, codes, ℤ, pos, equal,
}
use yeti_lnp_resolver.Base.ByteStrings.{c_str}
use yeti_lnp_resolver.Base.Decimal.{to_string}
use yeti_lnp_resolver.Base.Assoc.{lookup}
use yeti_lnp_resolver.Types.{ResolverRequest, HttpRequest, empty_result, auth_basic}
use yeti_lnp_resolver.Resolver.State.{fetch}
use yeti_lnp_resolver.Drivers.Json.{
  JsonLibrary, JsonType, json_number, json_string, json_object, jsonxx, item, item_string,
  string_at, strip_quotes, strip_last,
}
use yeti_lnp_resolver.Drivers.Select.{json_format, http_thinq}
use yeti_lnp_resolver.Drivers.Sip as Sip
use yeti_lnp_resolver.Drivers.Http.{
  ThinqCfg, json_header, thinq_driver, thinq_prefix, thinq_resolve,
}
use yeti_lnp_resolver.Drivers.Config.{
  ConfigRow, driver_cfg, get_raw_uniq_id, get_raw_label, get_json_host, get_json_user_name,
  get_json_port, get_json_timeout, item_unsigned, to_unsigned,
}
use yeti_lnp_resolver.Drivers.Config.Constructors.{thinq_cfg, thinq_json, parameters, get_json_text}
use yeti_lnp_resolver.Drivers.Config.Construct.{Surroundings, construct}
use yeti_lnp_resolver.Drivers.Config.Validity.{HasPorts}
use yeti_lnp_resolver.Drivers.Config.Ids.{construct-id}

-- The parameters, and their members.
data Item : Type 0 where
  members a_host a_user a_token a_port a_timeout : Item

abbrev children : Item → List (Bytes × Item)
children members =
    (codes "host", a_host)
    ∷ (codes "username", a_user)
    ∷ (codes "token", a_token)
    ∷ (codes "port", a_port)
    ∷ (codes "timeout", a_timeout)
    ∷ []
children _ = []

abbrev types : Item → JsonType
types members = json_object
types a_port = json_number
types a_timeout = json_number
types _ = json_string

abbrev strings : Item → Bytes
strings a_host = codes "api.thinq"
strings a_user = codes "user"
strings a_token = codes "token"
strings _ = []

-- The port is 2 ^ 16 + 80.
abbrev integers : Item → ℤ
integers a_port = pos 65616
integers a_timeout = pos 3000
integers _ = pos 0

abbrev tree : JsonLibrary
tree = record {
  Node = Item;
  parse_json = λ text. some members;
  type_of = types;
  child = children;
  valuestring = strings;
  valueint = integers;
  get_object_item = λ n key. lookup equal key (children n);
  create_object = a_host;
  add_item_reference = λ o key n. n;
  print_unformatted = λ n. strings n;
  out_of_range_what = codes "out of range";
}

abbrev row : ConfigRow
row = record {
  c_str_of = λ key. inr (codes "{}");
  string_of = λ key. inr (codes "label");
  int32_of = λ key d. inr (pos 4);
  uint16_of = λ key d. inl (codes "no such column");
  uint32_of = λ key d. inl (codes "no such column");
}

abbrev cfg : ThinqCfg
cfg = record {
  uniq_id = pos 4;
  host = codes "api.thinq";
  user_name = codes "user";
  token = codes "token";
  port = 80;
  timeout = 3000;
}

is_configured : thinq_cfg tree json_format row ≡ inr cfg
unfolding thinq_cfg thinq_json driver_cfg get_raw_uniq_id get_raw_label parameters jsonxx
    get_json_host get_json_user_name get_json_text get_json_port get_json_timeout item item_string
    string_at strip_quotes strip_last item_unsigned to_unsigned lookup c_str
is_configured = refl

row-HasPorts : HasPorts row
row-HasPorts = λ key n e. cc

abbrev surroundings : Surroundings
surroundings = record {
  read_file = λ path. none;
  sip_stack = λ uri. Sip.timed_out;
  memory = (0, false);
}

abbrev request : ResolverRequest
request = record {
  id = 77;
  type = pos 0;
  db_id = pos 4;
  client_info = record { addr = (1, 2); addr_size = 16; recv_fd = pos 3 };
  number = codes "12";
  req_start = 0;
  is_done = false;
  result = empty_result;
}

is_constructed :
    construct tree surroundings json_format row http_thinq ≡ some (thinq_driver tree cfg)
unfolding construct thinq_cfg thinq_json driver_cfg get_raw_uniq_id get_raw_label parameters jsonxx
    get_json_host get_json_user_name get_json_text get_json_port get_json_timeout item item_string
    string_at strip_quotes strip_last item_unsigned to_unsigned lookup c_str
is_constructed = refl

abbrev made : HttpRequest
made = record {
  id = 77;
  url = some (codes "https://api.thinq:80/lrn/extended/12?format=json");
  auth_type = auth_basic;
  login = some (codes "user");
  pass = some (codes "token");
  verify_ssl = false;
  timeout_ms = 3000;
  headers = json_header ∷ [];
}

is_made : (thinq_driver tree cfg).resolve request ≡ fetch made
unfolding thinq_driver thinq_resolve thinq_prefix c_str to_string
is_made = refl

construct-id_example : made.id ≡ request.id
construct-id_example =
    construct-id tree surroundings json_format row http_thinq (thinq_driver tree cfg) request made
      is_constructed is_made
