-- ===== src/Tests/Start.antt =====
-- The start of the program with the repository's configuration, with one that can be bound, and with
-- one that lacks a string; and signals.
use yeti_lnp_resolver.Base.{
  false, ◌≡◌, ◌↔◌, refl, true, false, Option, none, some, List, [], ◌∷◌, Bytes, codes, pos, ltb→lt,
  arith, ◌<◌, length,
}
use yeti_lnp_resolver.Base.Decimal.{to_string}
use yeti_lnp_resolver.Transport.Endpoints.{proto_url, IsProtoUrl}
use yeti_lnp_resolver.Configuration.{
  Section, Confuse, cfg_success, opts, GlobalCfg, DbCfg, load_cfg, loaded, not_loaded, null_string,
  get_conn_string, read_sections, read_daemon, read_db, read_sip, read_prometheus, read_urls,
}
use yeti_lnp_resolver.Configuration.Loading.{is_refused, is_incomplete, load_cfg-outcomes}
use yeti_lnp_resolver.Configuration.Connection.{words, HasWords, get_conn_string-words}
use yeti_lnp_resolver.Drivers.Config.{to_unsigned}
use yeti_lnp_resolver.Process.{Environment, config_path, no_config, start_up, loop_returned, main}
use yeti_lnp_resolver.Process.Startup.{is_looping, is_startable, main-success, main_unsupported}
use yeti_lnp_resolver.Process.Signals.{Locks, Reached, Meanwhile}
use yeti_lnp_resolver.Resolver.History.{initial}
use yeti_lnp_resolver.Cache as Cache
use yeti_lnp_resolver.Threads.{Thread}
use yeti_lnp_resolver.Tests.Handlers.{rows}

abbrev section : List (Option Bytes) → Option Bytes → Section
section urls text = record { getint = λ name. pos 5; getstr = λ name. text; getnstr = λ name. urls }

-- All sections are there, with the same URLs and texts.
abbrev file : List (Option Bytes) → Option Bytes → Confuse
file urls text = record {
  parse = λ options path. cfg_success;
  getsec = λ name. some (section urls text);
}

abbrev without_texts : Confuse
without_texts = file [] none

load_cfg-outcomes_example :
    ((load_cfg without_texts config_path no_config ≡ not_loaded no_config)
      ↔ ((is_refused (without_texts.parse opts config_path) ≡ true) × (no_config ≡ no_config)))
    × ((load_cfg without_texts config_path no_config ≡ null_string) ↔ (
        (is_refused (without_texts.parse opts config_path) ≡ false)
        × (is_incomplete without_texts ≡ true)))
load_cfg-outcomes_example = load_cfg-outcomes without_texts config_path no_config no_config

abbrev db : DbCfg
db = record {
  host = codes "127.0.0.1";
  user = codes "yeti";
  pass = codes "secret";
  database = codes "lnp";
  schema = codes "lnp";
  port = 5434;
  timeout = 0;
  check_timeout = 5000;
}

db-HasWords : HasWords db
db-HasWords = (
  ((refl, (refl, (refl, (refl, (refl, (refl, (refl, (refl, (refl, tt))))))))), omega arith),
  ((refl, (refl, (refl, (refl, tt)))), omega arith),
  ((refl, (refl, (refl, tt))), omega arith),
  ((refl, (refl, (refl, (refl, (refl, (refl, tt)))))), omega arith),
)

get_conn_string-words_example :
    words (get_conn_string db)
    ≡ codes "host"
      ∷ codes "="
      ∷ db.host
      ∷ codes "port"
      ∷ codes "="
      ∷ to_string db.port
      ∷ codes "user"
      ∷ codes "="
      ∷ db.user
      ∷ codes "dbname"
      ∷ codes "="
      ∷ db.database
      ∷ codes "password"
      ∷ codes "="
      ∷ db.pass
      ∷ codes "connect_timeout"
      ∷ codes "="
      ∷ to_string db.timeout
      ∷ []
get_conn_string-words_example = get_conn_string-words db db-HasWords

abbrev tcp_url : Bytes
tcp_url = proto_url (codes "tcp") (codes "127.0.0.1") 4444

tcp_url-length : length tcp_url < 128
unfolding to_string
tcp_url-length = ltb→lt 20 128 refl

tcp-IsProtoUrl : IsProtoUrl (codes "tcp", codes "127.0.0.1", 4444)
tcp-IsProtoUrl = (
  (refl, (refl, (refl, tt))),
  ltb→lt 0 3 refl,
  omega arith,
  (refl, (refl, (refl, (refl, (refl, (refl, (refl, (refl, (refl, tt))))))))),
  ltb→lt 0 9 refl,
  omega arith,
  tcp_url-length,
)

-- All that the program needs is there.
abbrev environment : List (Option Bytes) → Environment
environment urls = record {
  confuse = file urls (some (codes "yeti"));
  is_exposed = true;
  rows = rows;
  endpoint_of = λ url. (true, true);
  is_created = true;
  is_polled = true;
}

abbrev configured : GlobalCfg
configured = record {
  bind_urls = tcp_url ∷ [];
  db = record {
    host = codes "yeti";
    user = codes "yeti";
    pass = codes "yeti";
    database = codes "yeti";
    schema = codes "yeti";
    port = 5;
    timeout = 5;
    check_timeout = 5;
  };
  sip = record { contact = codes "yeti"; from_uri = codes "yeti"; from_name = codes "yeti" };
  prometheus = record { host = codes "yeti"; port = 5 };
  log_level = pos 3;
}

configured-loaded :
    load_cfg (environment (some tcp_url ∷ [])).confuse config_path no_config ≡ loaded configured
unfolding load_cfg read_sections read_daemon read_db read_sip read_prometheus read_urls to_unsigned
configured-loaded = refl

main_unsupported_example :
    (main (environment (some tcp_url ∷ [])) loop_returned ≡ some 1)
    × (is_looping (start_up (environment (some tcp_url ∷ []))) ≡ false)
main_unsupported_example =
    main_unsupported (environment (some tcp_url ∷ [])) loop_returned configured tcp_url []
      configured-loaded refl (((codes "tcp", codes "127.0.0.1", 4444), refl, tcp-IsProtoUrl), tt)

main-success_example : (main (environment []) loop_returned ≡ some 0) ↔ (
    (is_startable (environment []) (load_cfg (environment []).confuse config_path no_config) ≡ true)
    × (loop_returned ≡ loop_returned))
main-success_example = main-success (environment []) loop_returned

-- The mutexes, if the resolver holds that of its drivers.
abbrev locks : Locks
locks = record {
  resolver_instance = false;
  drivers = true;
  cache_instance = false;
  thread_td = false;
  thread_stopped = false;
  q_run = false;
  stopped = false;
  dispatcher_instance = false;
}

abbrev running_thread : Thread
running_thread = record { stopped = false; is_td_set = true; running = 1; is_detached = false }

abbrev within_resolve : Reached (Unit {0})
within_resolve = record {
  resolver = initial;
  locks = locks;
  cache = Cache.start Cache.opened;
  cache_thread = running_thread;
  terminator = none;
}

-- A signal that interrupts the thread of the cache.
abbrev meanwhile : Meanwhile
meanwhile = record { rows = rows; rounds = [] }
