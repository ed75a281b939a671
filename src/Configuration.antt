-- ===== src/Configuration.antt =====
-- src/cfg_reader.cpp, src/cfg.h and src/cfg.cpp: the configuration file, and the connection string that
-- is made of it. The library (confuse) is an argument: how the file parsed, and what it reads from
-- the sections then.
pub mod Loading
pub mod Connection
use yeti_lnp_resolver.Base.{
  ℕ, ◌-◌, ◌^◌, Bool, true, false, Option, none, some, List, [], ◌∷◌, ◌++◌, Bytes, codes, equal, ltb,
  if◌then◌else◌, ℤ, pos, negsuc, is_negative,
}
use yeti_lnp_resolver.Base.Assoc.{emplace}
use yeti_lnp_resolver.Base.Decimal.{to_string}
use yeti_lnp_resolver.Drivers.Config.{to_unsigned}

-- An option of a section, with its default; `no_default` is CFGF_NODEFAULT. A null pointer is `none`.
pub data Opt : Type 0 where
  cfg_int : Bytes → ℤ → Bool → Opt
  cfg_str : Bytes → Option Bytes → Bool → Opt
  cfg_str_list : Bytes → Bytes → Bool → Opt
  cfg_func : Bytes → Opt

abbrev daemon_section_opts : List Opt
daemon_section_opts =
    cfg_str_list (codes "listen") (codes "{tcp://127.0.0.1:4444}") true
    ∷ cfg_int (codes "log_level") (pos 2) true
    ∷ []

abbrev lnp_section_db_opts : List Opt
lnp_section_db_opts =
    cfg_int (codes "port") (pos 0) true
    ∷ cfg_str (codes "host") none true
    ∷ cfg_str (codes "name") none true
    ∷ cfg_str (codes "user") none true
    ∷ cfg_str (codes "pass") none true
    ∷ cfg_int (codes "conn_timeout") (pos 0) true
    ∷ cfg_int (codes "check_interval") (pos 0) true
    ∷ cfg_str (codes "schema") none true
    ∷ []

abbrev lnp_section_sip_opts : List Opt
lnp_section_sip_opts =
    cfg_str (codes "contact_user") (some (codes "yeti-lnp-resolver")) false
    ∷ cfg_str (codes "from_uri") (some (codes "sip:yeti-lnp-resolver@localhost")) false
    ∷ cfg_str (codes "from_name") (some (codes "yeti-lnp-resolver")) false
    ∷ []

abbrev prometheus_section_opts : List Opt
prometheus_section_opts =
    cfg_int (codes "port") (pos 9091) false
    ∷ cfg_str (codes "host") (some (codes "127.0.0.1")) false
    ∷ cfg_func (codes "label")
    ∷ []

-- The sections of `opts`; the option `node_id` beside them is not read.
abbrev pub opts : List (Bytes × List Opt)
opts =
    (codes "daemon", daemon_section_opts)
    ∷ (codes "db", lnp_section_db_opts)
    ∷ (codes "sip", lnp_section_sip_opts)
    ∷ (codes "prometheus", prometheus_section_opts)
    ∷ []

-- `cfg_getint`, `cfg_getstr`, where `none` is a null pointer, and `cfg_size` with `cfg_getnstr`.
pub record Section : Type 0 where
  pub getint : Bytes → ℤ
  pub getstr : Bytes → Option Bytes
  pub getnstr : Bytes → List (Option Bytes)

-- What `cfg_parse` returned.
pub data ParseCode : Type 0 where
  cfg_success cfg_file_error cfg_parse_error other_code : ParseCode

-- `cfg_parse` with the options and a path, and `cfg_getsec` behind it.
pub record Confuse : Type 0 where
  pub parse : List (Bytes × List Opt) → Bytes → ParseCode
  pub getsec : Bytes → Option Section

pub record DbCfg : Type 0 where
  pub host : Bytes
  pub user : Bytes
  pub pass : Bytes
  pub database : Bytes
  pub schema : Bytes
  pub port : ℕ
  pub timeout : ℕ
  pub check_timeout : ℕ

pub record SipCfg : Type 0 where
  pub contact : Bytes
  pub from_uri : Bytes
  pub from_name : Bytes

pub record PrometheusCfg : Type 0 where
  pub host : Bytes
  pub port : ℕ

-- `global_cfg_t`, and the global `log_level` beside it.
pub record GlobalCfg : Type 0 where
  pub bind_urls : List Bytes
  pub db : DbCfg
  pub sip : SipCfg
  pub prometheus : PrometheusCfg
  pub log_level : ℤ

-- `none` stands for a string that is made of a null pointer.
infixl 20 ◌>>=◌
abbrev pub ◌>>=◌ : {A B : Type 0} → Option A → (A → Option B) → Option B
none >>= f = none
some a >>= f = f a

-- A `long` as an `int`.
abbrev pub to_int : ℤ → ℤ
to_int z =
    let word = to_unsigned 32 z in
    if ltb word 2147483648 then pos word else negsuc (4294967295 - word)

-- Between L_ERR and L_DBG.
abbrev pub clamp_level : ℤ → ℤ
clamp_level (negsuc n) = pos 0
clamp_level (pos n) = if ltb 3 n then pos 3 else pos n

unfoldable pub read_urls : List (Option Bytes) → Option (List Bytes)
read_urls [] = some []
read_urls (url ∷ urls) = do u ← url; us ← read_urls urls; some (u ∷ us)

unfoldable pub read_daemon : Section → GlobalCfg → Option GlobalCfg
unfolding read_urls
read_daemon s cfg = do
  urls ← read_urls (s.getnstr (codes "listen"))
  some (record cfg {
    bind_urls = cfg.bind_urls ++ urls;
    log_level = clamp_level (to_int (s.getint (codes "log_level")));
  })

unfoldable pub read_db : Section → GlobalCfg → Option GlobalCfg
read_db s cfg = do
  host ← s.getstr (codes "host")
  user ← s.getstr (codes "user")
  pass ← s.getstr (codes "pass")
  database ← s.getstr (codes "name")
  schema ← s.getstr (codes "schema")
  some (record cfg {
    db = record {
      host = host;
      user = user;
      pass = pass;
      database = database;
      schema = schema;
      port = to_unsigned 32 (s.getint (codes "port"));
      timeout = to_unsigned 32 (s.getint (codes "conn_timeout"));
      check_timeout = to_unsigned 32 (s.getint (codes "check_interval"));
    };
  })

unfoldable pub read_sip : Section → GlobalCfg → Option GlobalCfg
read_sip s cfg = do
  contact ← s.getstr (codes "contact_user")
  from_uri ← s.getstr (codes "from_uri")
  from_name ← s.getstr (codes "from_name")
  some (record cfg {
    sip = record { contact = contact; from_uri = from_uri; from_name = from_name };
  })

unfoldable pub read_prometheus : Section → GlobalCfg → Option GlobalCfg
read_prometheus s cfg = do
  host ← s.getstr (codes "host")
  some (record cfg {
    prometheus = record { host = host; port = to_unsigned 32 (s.getint (codes "port")) };
  })

-- A section that the library does not have is passed over.
abbrev pub with_section :
    Option Section → (Section → GlobalCfg → Option GlobalCfg) → GlobalCfg → Option GlobalCfg
with_section none read cfg = some cfg
with_section (some s) read cfg = read s cfg

unfoldable pub read_sections : Confuse → GlobalCfg → Option GlobalCfg
unfolding read_daemon read_db read_sip read_prometheus
read_sections c cfg =
    with_section (c.getsec (codes "daemon")) read_daemon cfg
    >>= with_section (c.getsec (codes "db")) read_db
    >>= with_section (c.getsec (codes "sip")) read_sip
    >>= with_section (c.getsec (codes "prometheus")) read_prometheus

-- How `load_cfg` ended, and the configuration then.
pub data Loaded : Type 0 where
  loaded not_loaded : GlobalCfg → Loaded
  null_string : Loaded

abbrev pub loaded_or_null : Option GlobalCfg → Loaded
loaded_or_null none = null_string
loaded_or_null (some cfg) = loaded cfg

-- A code that is none of the three is logged, and the sections are read.
abbrev pub after_parse : Confuse → GlobalCfg → ParseCode → Loaded
after_parse c cfg cfg_file_error = not_loaded cfg
after_parse c cfg cfg_parse_error = not_loaded cfg
after_parse c cfg cfg_success = loaded_or_null (read_sections c cfg)
after_parse c cfg other_code = loaded_or_null (read_sections c cfg)

unfoldable pub load_cfg : Confuse → Bytes → GlobalCfg → Loaded
unfolding read_sections
load_cfg c path cfg = after_parse c cfg (c.parse opts path)

-- `db_cfg::get_conn_string`
unfoldable pub get_conn_string : DbCfg → Bytes
get_conn_string db =
    codes "host = "
    ++ (db.host
        ++ (codes " port = "
            ++ (to_string db.port
                ++ (codes " user = "
                    ++ (db.user
                        ++ (codes " dbname = "
                            ++ (db.database
                                ++ (codes " password = "
                                    ++ (db.pass
                                        ++ (codes " connect_timeout  = "
                                            ++ to_string db.timeout))))))))))

-- `label_func`: a label of the metrics; one with the name that is there stays.
unfoldable pub label_func : List Bytes → List (Bytes × Bytes) → ℕ × List (Bytes × Bytes)
unfolding emplace
label_func (option ∷ value ∷ []) labels = (0, emplace equal option value labels)
label_func _ labels = (1, labels)
