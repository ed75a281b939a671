-- ===== src/Drivers/Config/Parameters.antt =====
-- The configurations that are, or should be, read from the JSON text of the column "parameters":
-- src/drivers/HttpBulkvsDriver.cpp, HttpCoureAnqDriver.cpp and CnamHttpDriver.cpp, and the file path
-- of src/drivers/MhashCsvDriver.cpp.
use yeti_lnp_resolver.Base.{ℕ, Bool, Option, none, some, [], Bytes, codes, c_str, ◌⊎◌, inl, inr}
use yeti_lnp_resolver.Drivers.Json.{
  JsonLibrary, JsonType, json_string, json_object, get_json_string, get_json_int, get_by_key,
}
use yeti_lnp_resolver.Drivers.Select.{Format, json_format}
use yeti_lnp_resolver.Drivers.Http.{BulkvsCfg}
use yeti_lnp_resolver.Drivers.CoureAnq.{CoureAnqCfg, OperatorsMap, parse_operators}
use yeti_lnp_resolver.Drivers.Cnam.{CnamCfg, parse_url_template}
use yeti_lnp_resolver.Drivers.Config.{
  ◌>>=◌, ConfigRow, DriverCfg, driver_cfg, not_empty, to_unsigned, get_json_timeout,
}
use yeti_lnp_resolver.Drivers.Config.Constructors.{
  get_raw_file_path, or_text, or_thrown, get_json_text, get_json_flag, parameters,
}

module _ (j : JsonLibrary) where
  open j use {Node, parse_json, type_of, get_object_item}

  unfoldable pub bulkvs_json : Format → ConfigRow → DriverCfg → Bytes ⊎ BulkvsCfg
  unfolding parameters get_json_text get_json_timeout get_json_flag
  bulkvs_json f row base = do
    n ← parameters j row
    raw_url ← get_json_text j f n (codes "url")
    url ← not_empty (codes "url value is invalid!") raw_url
    raw_token ← get_json_text j f n (codes "token")
    token ← not_empty (codes "token value is invalid!") raw_token
    timeout ← get_json_timeout j f n
    flag ← get_json_flag j f n
    inr (record {
      uniq_id = base.uniq_id;
      url = url;
      token = token;
      timeout = timeout;
      validate_https_cer = flag;
    })

  -- In the other formats nothing is read: the timeout and the flag are what stood in the memory.
  abbrev pub bulkvs_members : ℕ × Bool → Format → ConfigRow → DriverCfg → Bytes ⊎ BulkvsCfg
  bulkvs_members unset json_format row base = bulkvs_json json_format row base
  bulkvs_members unset f row base = inr (record {
    uniq_id = base.uniq_id;
    url = [];
    token = [];
    timeout = unset.0;
    validate_https_cer = unset.1;
  })

  -- `CHttpBulkvsDriverCfg::CHttpBulkvsDriverCfg`
  unfoldable pub bulkvs_cfg : ℕ × Bool → Format → ConfigRow → Bytes ⊎ BulkvsCfg
  unfolding driver_cfg bulkvs_json
  bulkvs_cfg unset f row = do base ← driver_cfg f row; bulkvs_members unset f row base

  abbrev pub csv_members : Format → ConfigRow → Bytes ⊎ Bytes
  csv_members json_format row = do
    n ← parameters j row
    path ← get_json_text j json_format n (codes "csv_file_path")
    not_empty (codes "invalid csv file path!") path
  csv_members f row = do
    path ← get_raw_file_path f row
    not_empty (codes "invalid csv file path!") path

  -- `CMhashCsvDriverCfg::CMhashCsvDriverCfg`: the identifier and the file.
  unfoldable pub csv_cfg : Format → ConfigRow → Bytes ⊎ (DriverCfg × Bytes)
  unfolding driver_cfg parameters get_json_text get_raw_file_path
  csv_cfg f row = do base ← driver_cfg f row; path ← csv_members f row; inr (base, path)

  -- `set_str_var`, and the timeout.
  abbrev pub string_by_key : Node → Bytes → Option Bytes
  string_by_key n key = elim (get_by_key j n key) [ none ↦ none | some i ↦ get_json_string j i ]

  abbrev pub integer_of : Option Node → Option ℕ
  integer_of none = none
  integer_of (some i) = elim (get_json_int j i) [ none ↦ none | some v ↦ some (to_unsigned 32 v) ]

  abbrev pub timeout_by_key : Node → Option ℕ
  timeout_by_key n = integer_of (get_by_key j n (codes "timeout"))

  -- The switch on the type of "operators_map": a string is parsed once more.
  unfoldable pub operators_of : Node → JsonType → Bytes ⊎ OperatorsMap
  unfolding get_json_string parse_operators
  operators_of m json_string = do
    text ← or_text (get_json_string j m)
    n ← or_thrown (codes "failed to parse operators_map json") (parse_json (c_str text))
    or_text (parse_operators j n)
  operators_of m json_object = or_text (parse_operators j m)
  operators_of m _ = inl (codes "unexpected operators_map field type")

  unfoldable pub coure_anq_members : DriverCfg → Node → Bytes ⊎ CoureAnqCfg
  unfolding get_by_key get_json_string get_json_int to_unsigned operators_of
  coure_anq_members base n = do
    base_url ← or_text (string_by_key n (codes "base_url"))
    username ← or_text (string_by_key n (codes "username"))
    password ← or_text (string_by_key n (codes "password"))
    country_code ← or_text (string_by_key n (codes "country_code"))
    timeout ← or_text (timeout_by_key n)
    m ← or_thrown (codes "misssed operators_map field") (get_object_item n (codes "operators_map"))
    operators_map ← operators_of m (type_of m)
    inr (record {
      uniq_id = base.uniq_id;
      base_url = base_url;
      username = username;
      password = password;
      country_code = country_code;
      timeout = timeout;
      operators_map = operators_map;
    })

  -- `cJSON_Parse` of the column, in the one format that is supported.
  unfoldable pub parsed_parameters : Format → ConfigRow → Bytes ⊎ Node
  parsed_parameters json_format row = do
    text ← row.c_str_of (codes "parameters")
    or_thrown (codes "failed to parse json") (parse_json (c_str text))
  parsed_parameters f row = inl (codes "unsupported config format")

  -- `CHttpCoureAnqDriverCfg::CHttpCoureAnqDriverCfg`
  unfoldable pub coure_anq_cfg : Format → ConfigRow → Bytes ⊎ CoureAnqCfg
  unfolding driver_cfg parsed_parameters coure_anq_members
  coure_anq_cfg f row = do
    base ← driver_cfg f row
    n ← parsed_parameters f row
    coure_anq_members base n

  unfoldable pub cnam_members : DriverCfg → Node → Bytes ⊎ CnamCfg
  unfolding get_by_key get_json_string get_json_int to_unsigned parse_url_template
  cnam_members base n = do
    timeout ← or_text (timeout_by_key n)
    url ← or_text (string_by_key n (codes "url"))
    uri_parts ← parse_url_template url
    inr (record { uniq_id = base.uniq_id; timeout = timeout; uri_parts = uri_parts })

  -- `CCnamHttpDriverCfg::CCnamHttpDriverCfg`
  unfoldable pub cnam_cfg : Format → ConfigRow → Bytes ⊎ CnamCfg
  unfolding driver_cfg parsed_parameters cnam_members
  cnam_cfg f row = do base ← driver_cfg f row; n ← parsed_parameters f row; cnam_members base n
