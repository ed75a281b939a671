-- ===== src/Process/Startup.antt =====
-- When the program enters the dispatcher's loop, and when it exits with a failure.
use mathlib.Core.Path.{subst}
use yeti_lnp_resolver.Base.{
  ◌≡◌, refl, ◌∙◌, ◌↔◌, ap, ℕ, Bool, true, false, Option, none, some, List, [], ◌∷◌, Bytes, codes,
  map, arith, All, sym, ◌&&◌,
}
use yeti_lnp_resolver.Resolver.State.{Driver, configure}
use yeti_lnp_resolver.Transport.{
  Endpoint, Binding, bound, no_endpoints, nothing_bound, undefined, bind_endpoints,
}
use yeti_lnp_resolver.Transport.Endpoints.{
  proto_url, IsProtoUrl, AreProtoUrls, bind_endpoints_unsupported,
}
use yeti_lnp_resolver.Threads.{Thread, new_thread}
use yeti_lnp_resolver.Threads as Threads
use yeti_lnp_resolver.Statistics as Statistics
use yeti_lnp_resolver.Configuration.{GlobalCfg, Loaded, loaded, not_loaded, null_string, load_cfg}
use yeti_lnp_resolver.Process.{
  with_metrics, exit_code, Environment, Services, Start, looping, caught, start_undefined,
  config_path, endpoint, new_services, start_cache, start_transport, start_resolver,
  start_dispatcher, start_loaded, no_config, start_up, LoopEnd, loop_returned, loop_threw, main,
}

-- The endpoints of the configured URLs.
abbrev pub endpoints : Environment → GlobalCfg → List Endpoint
endpoints env cfg = map (endpoint env.endpoint_of) cfg.bind_urls

-- What the loop is entered with: the transport listens, the resolver is its handler, and the cache's
-- thread runs.
abbrev pub IsReady : Environment → GlobalCfg → Services → Type 0
IsReady env cfg w =
    (w.config ≡ cfg)
    × (bind_endpoints (endpoints env cfg) ≡ bound w.listening)
    × (w.has_handler ≡ true)
    × (w.cache_thread.running ≡ 1)

-- What the loop is entered with, if it is.
abbrev Enters : Environment → GlobalCfg → Start → Type 0
Enters env cfg (looping w) = IsReady env cfg w
Enters env cfg _ = Unit {0}

abbrev pub is_looping : Start → Bool
is_looping (looping w) = true
is_looping _ = false

abbrev pub is_bound : Binding → Bool
is_bound (bound bs) = true
is_bound _ = false

abbrev pub is_some : Option (List (Option Driver)) → Bool
is_some none = false
is_some (some rows) = true

start_cache-Enters :
    (env : Environment) (cfg : GlobalCfg) (w : Services) (is_created : Bool)
    → w.config ≡ cfg
    → bind_endpoints (endpoints env cfg) ≡ bound w.listening
    → w.has_handler ≡ true
    → let s = start_cache w (Threads.start is_created new_thread) in
      (is_looping s ≡ is_created) × Enters env cfg s
unfolding Threads.start
start_cache-Enters env cfg w true same listens handled = (refl, (same, listens, handled, refl))
start_cache-Enters env cfg w false same listens handled = (refl, tt)

start_transport-Enters :
    (env : Environment) (w : Services) (b : Binding)
    → w.cache_thread ≡ new_thread
    → bind_endpoints (endpoints env w.config) ≡ b
    → let s = start_transport env w b in
      (is_looping s ≡ (is_bound b && env.is_created)) × Enters env w.config s
start_transport-Enters env w (bound bs) fresh e =
    let ready : Services = record w { listening = bs; has_handler = true } in
    subst
      (λ t.
        let s = start_cache ready (Threads.start env.is_created t) in
        (is_looping s ≡ env.is_created) × Enters env w.config s)
      (sym fresh) (start_cache-Enters env w.config ready env.is_created refl e refl)
start_transport-Enters env w no_endpoints fresh e = (refl, tt)
start_transport-Enters env w nothing_bound fresh e = (refl, tt)
start_transport-Enters env w undefined fresh e = (refl, tt)

-- Whether the configured program can start.
abbrev pub is_startable : Environment → Loaded → Bool
is_startable env (loaded cfg) =
    env.is_polled
    && (is_some env.rows && (is_bound (bind_endpoints (endpoints env cfg)) && env.is_created))
is_startable env _ = false

configured-Enters :
    (env : Environment) (w : Services) (rows : Option (List (Option Driver)))
    → w.cache_thread ≡ new_thread
    → let s = start_resolver env w (configure rows w.resolver) in
      (is_looping s
        ≡ (is_some rows && (is_bound (bind_endpoints (endpoints env w.config)) && env.is_created)))
      × Enters env w.config s
unfolding configure
configured-Enters env w none fresh = (refl, tt)
configured-Enters env w (some rows) fresh =
    let configured : Services = record w {
      resolver = (configure (some rows) w.resolver).0;
      exporter = with_metrics env.rows w.exporter;
    } in
    start_transport-Enters env configured (bind_endpoints (endpoints env w.config)) fresh refl

start_dispatcher-Enters :
    (env : Environment) (w : Services) (is_polled : Bool)
    → w.cache_thread ≡ new_thread
    → let s = start_dispatcher env is_polled w in
      (is_looping s ≡ (
        is_polled
        && (is_some env.rows
            && (is_bound (bind_endpoints (endpoints env w.config)) && env.is_created))))
      × Enters env w.config s
start_dispatcher-Enters env w true fresh = configured-Enters env w env.rows fresh
start_dispatcher-Enters env w false fresh = (refl, tt)

start_loaded-Enters :
    (env : Environment) (l : Loaded)
    → (is_looping (start_loaded env l) ≡ is_startable env l)
      × ((cfg : GlobalCfg) → l ≡ loaded cfg → Enters env cfg (start_loaded env l))
start_loaded-Enters env (not_loaded g) = (refl, λ cfg e. tt)
start_loaded-Enters env null_string = (refl, λ cfg e. tt)
start_loaded-Enters env (loaded g) =
    let entered = start_dispatcher-Enters env (new_services g _) env.is_polled refl in
    (entered.0, λ cfg e. subst (λ h. Enters env h (start_loaded env (loaded g))) (cc) entered.1)

-- If the file loads and the loop is entered, `epoll_create` succeeded, the rows of the drivers were loaded and the thread of the
-- cache created; the transport listens on the configured endpoints that could be bound, at least
-- one, it has its handler, and one thread runs for the cache.
start_up-IsReady :
    (env : Environment) (cfg : GlobalCfg) (w : Services)
    → load_cfg env.confuse config_path no_config ≡ loaded cfg
    → start_up env ≡ looping w
    → IsReady env cfg w × (is_startable env (loaded cfg) ≡ true)
unfolding start_up
start_up-IsReady env cfg w e h =
    let entered = start_loaded-Enters env (load_cfg env.confuse config_path no_config) in
    (
      subst (λ s. Enters env cfg s) h (entered.1 cfg e),
      sym (ap (is_startable env) e) ∙ sym entered.0 ∙ ap is_looping h,
    )

exit_code-success :
    (s : Start) (ended : LoopEnd)
    → (exit_code s ended ≡ some 0) ↔ ((is_looping s ≡ true) × (ended ≡ loop_returned))
exit_code-success (looping w) loop_returned = ground arith
exit_code-success (looping w) (loop_threw what) = ground arith
exit_code-success (caught what) ended = ground arith
exit_code-success start_undefined ended = ground arith

-- The program exits with success exactly if the file loads, epoll_create succeeds, the rows of the
-- drivers load, one of the configured endpoints or more can be bound, the thread of the cache is
-- created, and the loop returns.
pub main-success :
    (env : Environment) (ended : LoopEnd)
    → (main env ended ≡ some 0) ↔ (
        (is_startable env (load_cfg env.confuse config_path no_config) ≡ true)
        × (ended ≡ loop_returned))
unfolding main start_up
main-success env ended =
    let l = load_cfg env.confuse config_path no_config in
    let entered = start_loaded-Enters env l in
    let success = exit_code-success (start_loaded env l) ended in
    (λ e. (sym entered.0 ∙ (success.0 e).0, (success.0 e).1), λ p. success.1 (entered.0 ∙ p.0, p.1))

-- Of a start that stopped at an exception the program exits with a failure.
unbound-caught :
    (env : Environment) (w : Services) (rows : Option (List (Option Driver)))
    → bind_endpoints (endpoints env w.config) ≡ nothing_bound
    → (what : Bytes) × (start_resolver env w (configure rows w.resolver) ≡ caught what)
unfolding configure
unbound-caught env w none e = (codes "can't init resolvers", refl)
unbound-caught env w (some rows) e = (codes "can't bind to any url", rw e refl)

unstarted-caught :
    (env : Environment) (w : Services) (is_polled : Bool)
    → bind_endpoints (endpoints env w.config) ≡ nothing_bound
    → (what : Bytes) × (start_dispatcher env is_polled w ≡ caught what)
unstarted-caught env w true e = unbound-caught env w env.rows e
unstarted-caught env w false e = (codes "epoll_create call failed", refl)

AreProtoUrls-map :
    (env : Environment) (urls : List Bytes)
    → All (λ u. (p : Bytes × Bytes × ℕ) × (u ≡ proto_url p.0 p.1 p.2) × IsProtoUrl p) urls
    → AreProtoUrls (map (endpoint env.endpoint_of) urls)
AreProtoUrls-map env [] v = tt
AreProtoUrls-map env (u ∷ us) v = (v.0, AreProtoUrls-map env us v.1)

-- With a configuration that loads and has only URLs `proto://host:port`, one or more, of at most
-- 127 bytes, with protocols of 1 to 16 bytes and hosts of 1 to 64, without colons, the program
-- exits with a failure and does not enter the loop, whatever the sockets would do.
pub main_unsupported :
    (env : Environment) (ended : LoopEnd) (cfg : GlobalCfg) (url : Bytes) (urls : List Bytes)
    → load_cfg env.confuse config_path no_config ≡ loaded cfg
    → cfg.bind_urls ≡ url ∷ urls
    → All (λ u. (p : Bytes × Bytes × ℕ) × (u ≡ proto_url p.0 p.1 p.2) × IsProtoUrl p) (url ∷ urls)
    → (main env ended ≡ some 1) × (is_looping (start_up env) ≡ false)
unfolding main start_up
main_unsupported env ended cfg url urls e same protos =
    let w = new_services cfg (Statistics.start env.is_exposed Statistics.new_exporter) in
    let unbound : bind_endpoints (endpoints env cfg) ≡ nothing_bound =
      ap (λ us. bind_endpoints (map (endpoint env.endpoint_of) us)) same
      ∙ bind_endpoints_unsupported (endpoint env.endpoint_of url)
          (map (endpoint env.endpoint_of) urls) (AreProtoUrls-map env (url ∷ urls) protos) in
    let stopped = unstarted-caught env w env.is_polled unbound in
    let all : start_loaded env (load_cfg env.confuse config_path no_config) ≡ caught stopped.0 =
      ap (start_loaded env) e ∙ stopped.1 in
    rw all (refl, refl)
