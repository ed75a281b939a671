-- ===== src/Process.antt =====
-- src/yeti_lnp_resolver.cpp and src/sig.cpp: the start of the program, what a signal does, and the exit
-- code. Each component is its own model; the configuration library, the sockets, the web server of
-- the metrics and pthreads are arguments.
pub mod Startup
pub mod Signals
use yeti_lnp_resolver.Base.{
  ℕ, pos, Bool, true, false, Option, none, some, List, [], ◌∷◌, Bytes, codes, map, ℤ, ◌⊎◌, inl, inr,
}
use yeti_lnp_resolver.Resolver.State.{Resolver, Driver, configure}
use yeti_lnp_resolver.Resolver.History.{initial}
use yeti_lnp_resolver.Transport.{
  Endpoint, Binding, bound, no_endpoints, nothing_bound, undefined, bind_endpoints,
}
use yeti_lnp_resolver.Threads.{
  Thread, new_thread, Started, already_running, could_not_start, started,
}
use yeti_lnp_resolver.Threads as Threads
use yeti_lnp_resolver.Statistics as Statistics
use yeti_lnp_resolver.Statistics.{Exporter}
use yeti_lnp_resolver.Statistics.Metering.{init_rows}
use yeti_lnp_resolver.Configuration.{
  Confuse, GlobalCfg, Loaded, loaded, not_loaded, null_string, load_cfg,
}

-- What the program finds: the configuration file, whether the web server can be bound, the rows of the
-- database, what the sockets of a URL do, whether the cache's thread is created, and whether
-- `epoll_create` gives a descriptor.
pub record Environment : Type 0 where
  pub confuse : Confuse
  pub is_exposed : Bool
  pub rows : Option (List (Option Driver))
  pub endpoint_of : Bytes → Bool × Bool
  pub is_created : Bool
  pub is_polled : Bool

-- The components when the dispatcher's loop is entered. The transport hands datagrams over once
-- `set_handler` was called.
pub record Services : Type 0 where
  pub config : GlobalCfg
  pub exporter : Exporter
  pub resolver : Resolver
  pub listening : List (Bytes × ℕ)
  pub has_handler : Bool
  pub cache_thread : Thread

-- A start that stopped at an exception has its text, one that used a null pointer or wrote past an
-- array is undefined.
pub data Start : Type 0 where
  looping : Services → Start
  caught : Bytes → Start
  start_undefined : Start

abbrev pub config_path : Bytes
config_path = codes "/etc/yeti/lnp_resolver.cfg"

abbrev pub endpoint : (Bytes → Bool × Bool) → Bytes → Endpoint
endpoint sockets u = record { url = u; socket_ok = (sockets u).0; bind_ok = (sockets u).1 }

abbrev pub new_services : GlobalCfg → Exporter → Services
new_services cfg e = record {
  config = cfg;
  exporter = e;
  resolver = initial;
  listening = [];
  has_handler = false;
  cache_thread = new_thread;
}

-- `lnp_cache::instance()->start()`, and then the loop.
abbrev pub start_cache : Services → Started × Thread → Start
start_cache w (could_not_start, t) = caught (codes "thread could not be started")
start_cache w (_, t) = looping (record w { cache_thread = t })

-- `transport::instance()`, which binds the endpoints, and `set_handler`.
abbrev pub start_transport : Environment → Services → Binding → Start
start_transport env w (bound bs) =
    let ready : Services = record w { listening = bs; has_handler = true } in
    start_cache ready (Threads.start env.is_created w.cache_thread)
start_transport env w no_endpoints =
    caught (codes "no listen endpoints specified. check your config")
start_transport env w nothing_bound = caught (codes "can't bind to any url")
start_transport env w undefined = start_undefined

abbrev pub with_metrics : Option (List (Option Driver)) → Exporter → Exporter
with_metrics none e = e
with_metrics (some rows) e = init_rows rows e

-- `resolver::instance()->configure()`: the drivers' metrics are made with the drivers.
abbrev pub start_resolver : Environment → Services → Resolver × Bool → Start
start_resolver env w (r, false) = caught (codes "can't init resolvers")
start_resolver env w (r, true) =
    let configured : Services = record w {
      resolver = r;
      exporter = with_metrics env.rows w.exporter;
    } in
    start_transport env configured
      (bind_endpoints (map (endpoint env.endpoint_of) w.config.bind_urls))

-- `resolver::instance()`, whose HTTP client makes the dispatcher's instance, and `configure`.
abbrev pub start_dispatcher : Environment → Bool → Services → Start
start_dispatcher env false w = caught (codes "epoll_create call failed")
start_dispatcher env true w = start_resolver env w (configure env.rows w.resolver)

-- `load_cfg`, and the exporter.
abbrev pub start_loaded : Environment → Loaded → Start
start_loaded env (not_loaded cfg) = caught (codes "can't load config")
start_loaded env null_string = start_undefined
start_loaded env (loaded cfg) =
    let w = new_services cfg (Statistics.start env.is_exposed Statistics.new_exporter) in
    start_dispatcher env env.is_polled w

-- The globals before the file is read.
abbrev pub no_config : GlobalCfg
no_config = record {
  bind_urls = [];
  db = record {
    host = [];
    user = [];
    pass = [];
    database = [];
    schema = [];
    port = 0;
    timeout = 0;
    check_timeout = 0;
  };
  sip = record { contact = []; from_uri = []; from_name = [] };
  prometheus = record { host = []; port = 0 };
  log_level = pos 0;
}

-- `main` up to the loop.
unfoldable pub start_up : Environment → Start
unfolding load_cfg bind_endpoints configure initial Threads.start Statistics.start
start_up env = start_loaded env (load_cfg env.confuse config_path no_config)

-- How the loop ended: it returned, or an exception left it.
pub data LoopEnd : Type 0 where
  loop_returned : LoopEnd
  loop_threw : Bytes → LoopEnd

-- The exit code, EXIT_FAILURE being 1.
abbrev pub exit_code : Start → LoopEnd → Option ℕ
exit_code (looping w) loop_returned = some 0
exit_code (looping w) (loop_threw what) = some 1
exit_code (caught what) ended = some 1
exit_code start_undefined ended = none

unfoldable pub main : Environment → LoopEnd → Option ℕ
unfolding start_up
main env ended = exit_code (start_up env) ended
