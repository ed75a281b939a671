-- ===== src/Drivers/Config/Constructors.antt =====
-- The constructors of the drivers' configurations: src/drivers/SipDriver.cpp, HttpThinqDriver.cpp,
-- MhashCsvDriver.cpp, HttpAlcazarDriver.cpp, HttpCoureAnqDriver.cpp, CnamHttpDriver.cpp and
-- HttpBulkvsDriver.cpp. The text of an exception is kept where the program writes it itself.
use yeti_lnp_resolver.Base.{Bool, false, Option, none, some, [], Bytes, codes, ◌⊎◌, inl, inr}
use yeti_lnp_resolver.Drivers.Json.{JsonLibrary, jsonxx, string_at}
use yeti_lnp_resolver.Drivers.Select.{Format, separate_columns_v2, json_format}
use yeti_lnp_resolver.Drivers.Sip.{SipCfg}
use yeti_lnp_resolver.Drivers.Http.{ThinqCfg, AlcazarCfg}
use yeti_lnp_resolver.Drivers.Config.{
  ◌>>=◌, ConfigRow, DriverCfg, driver_cfg, not_empty, of_columns, of_json, item_bool,
  get_raw_timeout, get_raw_port, get_raw_host, get_raw_user_name, get_json_timeout, get_json_port,
  get_json_host, get_json_user_name,
}
use yeti_lnp_resolver.Drivers.Json.{item}

-- `CHttpThinqDriverCfg::getRawToken`, `CHttpAlcazarDriverCfg::getRawKey` and
-- `CMhashCsvDriverCfg::getRawFilePath` of a row.
unfoldable pub get_raw_token : Format → ConfigRow → Bytes ⊎ Bytes
get_raw_token f row = of_columns f [] (row.string_of (codes "o_thinq_token"))

unfoldable pub get_raw_key : Format → ConfigRow → Bytes ⊎ Bytes
get_raw_key separate_columns_v2 row = row.string_of (codes "o_alkazar_key")
get_raw_key _ row = inr []

unfoldable pub get_raw_file_path : Format → ConfigRow → Bytes ⊎ Bytes
get_raw_file_path f row = of_columns f [] (row.string_of (codes "o_csv_file"))

-- `getJsonValueByKey` throws texts of its own, which are not kept.
abbrev pub or_text {ℓ} : {A : Type ℓ} → Option A → Bytes ⊎ A
or_text none = inl []
or_text (some a) = inr a

abbrev pub or_thrown {ℓ} : {A : Type ℓ} → Bytes → Option A → Bytes ⊎ A
or_thrown what none = inl what
or_thrown what (some a) = inr a

module _ (j : JsonLibrary) where
  open j use {Node, parse_json, type_of, get_object_item}

  -- The same members of the JSON text of the column "parameters".
  unfoldable pub get_json_text : Format → Node → Bytes → Bytes ⊎ Bytes
  unfolding string_at
  get_json_text f n key = of_json f [] (string_at j n key)

  unfoldable pub get_json_flag : Format → Node → Bytes ⊎ Bool
  unfolding item item_bool
  get_json_flag f n =
      of_json f false (do i ← item j n (codes "validate_https_certificate"); inr (item_bool j i))

  unfoldable pub parameters : ConfigRow → Bytes ⊎ Node
  unfolding jsonxx
  parameters row = do text ← row.c_str_of (codes "parameters"); jsonxx j text

  unfoldable pub sip_json : Format → ConfigRow → DriverCfg → Bytes ⊎ SipCfg
  unfolding parameters get_json_host get_json_port get_json_timeout
  sip_json f row base = do
    n ← parameters row
    raw ← get_json_host j f n
    host ← not_empty (codes "host value is invalid!") raw
    port ← get_json_port j f n
    timeout ← get_json_timeout j f n
    inr (record { uniq_id = base.uniq_id; host = host; port = port; timeout = timeout })

  unfoldable pub sip_columns : Format → ConfigRow → DriverCfg → Bytes ⊎ SipCfg
  unfolding get_raw_host get_raw_port get_raw_timeout
  sip_columns f row base = do
    raw ← get_raw_host f row
    host ← not_empty (codes "host value is invalid!") raw
    port ← get_raw_port f row
    timeout ← get_raw_timeout f row
    inr (record { uniq_id = base.uniq_id; host = host; port = port; timeout = timeout })

  abbrev pub sip_members : Format → ConfigRow → DriverCfg → Bytes ⊎ SipCfg
  sip_members json_format row base = sip_json json_format row base
  sip_members f row base = sip_columns f row base

  -- `CSipDriverCfg::CSipDriverCfg`
  unfoldable pub sip_cfg : Format → ConfigRow → Bytes ⊎ SipCfg
  unfolding driver_cfg sip_json sip_columns
  sip_cfg f row = do base ← driver_cfg f row; sip_members f row base

  unfoldable pub thinq_json : Format → ConfigRow → DriverCfg → Bytes ⊎ ThinqCfg
  unfolding parameters get_json_host get_json_user_name get_json_text get_json_port get_json_timeout
  thinq_json f row base = do
    n ← parameters row
    raw_host ← get_json_host j f n
    host ← not_empty (codes "host value is invalid!") raw_host
    raw_user_name ← get_json_user_name j f n
    user_name ← not_empty (codes "user name value is invalid!") raw_user_name
    raw_token ← get_json_text f n (codes "token")
    token ← not_empty (codes "token value is invalid!") raw_token
    port ← get_json_port j f n
    timeout ← get_json_timeout j f n
    inr (record {
      uniq_id = base.uniq_id;
      host = host;
      user_name = user_name;
      token = token;
      port = port;
      timeout = timeout;
    })

  unfoldable pub thinq_columns : Format → ConfigRow → DriverCfg → Bytes ⊎ ThinqCfg
  unfolding get_raw_host get_raw_user_name get_raw_token get_raw_port get_raw_timeout
  thinq_columns f row base = do
    raw_host ← get_raw_host f row
    host ← not_empty (codes "host value is invalid!") raw_host
    raw_user_name ← get_raw_user_name f row
    user_name ← not_empty (codes "user name value is invalid!") raw_user_name
    raw_token ← get_raw_token f row
    token ← not_empty (codes "token value is invalid!") raw_token
    port ← get_raw_port f row
    timeout ← get_raw_timeout f row
    inr (record {
      uniq_id = base.uniq_id;
      host = host;
      user_name = user_name;
      token = token;
      port = port;
      timeout = timeout;
    })

  abbrev pub thinq_members : Format → ConfigRow → DriverCfg → Bytes ⊎ ThinqCfg
  thinq_members json_format row base = thinq_json json_format row base
  thinq_members f row base = thinq_columns f row base

  -- `CHttpThinqDriverCfg::CHttpThinqDriverCfg`
  unfoldable pub thinq_cfg : Format → ConfigRow → Bytes ⊎ ThinqCfg
  unfolding driver_cfg thinq_json thinq_columns
  thinq_cfg f row = do base ← driver_cfg f row; thinq_members f row base

  unfoldable pub alcazar_json : Format → ConfigRow → DriverCfg → Bytes ⊎ AlcazarCfg
  unfolding parameters get_json_host get_json_text get_json_port get_json_timeout
  alcazar_json f row base = do
    n ← parameters row
    raw_host ← get_json_host j f n
    host ← not_empty (codes "host value is invalid!") raw_host
    raw_key ← get_json_text f n (codes "key")
    key ← not_empty (codes "key value is invalid!") raw_key
    port ← get_json_port j f n
    timeout ← get_json_timeout j f n
    inr (record { uniq_id = base.uniq_id; host = host; key = key; port = port; timeout = timeout })

  unfoldable pub alcazar_columns : Format → ConfigRow → DriverCfg → Bytes ⊎ AlcazarCfg
  unfolding get_raw_host get_raw_key get_raw_port get_raw_timeout
  alcazar_columns f row base = do
    raw_host ← get_raw_host f row
    host ← not_empty (codes "host value is invalid!") raw_host
    raw_key ← get_raw_key f row
    key ← not_empty (codes "key value is invalid!") raw_key
    port ← get_raw_port f row
    timeout ← get_raw_timeout f row
    inr (record { uniq_id = base.uniq_id; host = host; key = key; port = port; timeout = timeout })

  abbrev pub alcazar_members : Format → ConfigRow → DriverCfg → Bytes ⊎ AlcazarCfg
  alcazar_members json_format row base = alcazar_json json_format row base
  alcazar_members f row base = alcazar_columns f row base

  -- `CHttpAlcazarDriverCfg::CHttpAlcazarDriverCfg`
  unfoldable pub alcazar_cfg : Format → ConfigRow → Bytes ⊎ AlcazarCfg
  unfolding driver_cfg alcazar_json alcazar_columns
  alcazar_cfg f row = do base ← driver_cfg f row; alcazar_members f row base
