-- ===== src/Resolver/State.antt =====
-- The class `Resolver` of src/resolver/Resolver.cpp: the drivers, the requests that wait for an
-- HTTP response, and the handlers. What a handler does to other components (datagrams, counters,
-- cache entries, HTTP transfers) is a list of effects in the order of the calls.
use yeti_lnp_resolver.Base.{
  ℕ, ◌-◌, Bool, true, false, not, Option, none, some, List, [], ◌∷◌, ◌++◌, Bytes, codes, c_str,
  ◌==◌, if◌then◌else◌, ℤ, pos, eq_ℤ, ◌⊎◌, inl, inr,
}
use yeti_lnp_resolver.Base.Assoc.{lookup, emplace, erase}
use yeti_lnp_resolver.Types.{
  ClientInfo, RecvData, SResult, ResolverRequest, new_request, ResolverError,
  general_resolving_error, driver_resolving_error, Exception, driver_error, http_error, other,
  HttpRequest, HttpResponse, CacheEntry,
}
use yeti_lnp_resolver.Resolver.Request.{parse}
use yeti_lnp_resolver.Resolver.Reply.{provisional_reply, reply_of, error_reply_of}

-- What `CDriver::resolve` does last: it sets `is_done` with a result, calls the handler's
-- `make_http_request`, or throws.
pub data Action : Type 0 where
  finish : SResult → Action
  fetch : HttpRequest → Action
  raise : Exception → Action

-- The virtual methods of `CDriver`.
pub record Driver : Type 0 where
  pub unique_id : ℤ
  pub name : Bytes
  pub driver_type : ℤ
  pub resolve : ResolverRequest → Action
  pub parse : Bytes → ResolverRequest → Exception ⊎ SResult

pub data Effect : Type 0 where
  send_data : ClientInfo → Bytes → Effect
  count_increment failed_increment : ℤ → Effect
  finished_increment : ℤ → ℕ → Effect
  cache_sync : CacheEntry → Effect
  make_request : HttpRequest → Effect

-- How `AsyncHttpClient::make_request` ended: it returned 0 or -1, or threw.
pub data HttpOutcome : Type 0 where
  accepted refused : HttpOutcome
  raised : Bytes → HttpOutcome

pub record Resolver : Type 0 where
  pub drivers : List (ℤ × Driver)
  pub waiting_requests : List (ℕ × ResolverRequest)
  pub effects : List Effect

abbrev pub emit : Effect → Resolver → Resolver
emit e s = record s { effects = s.effects ++ (e ∷ []) }

-- The end of a handler: the state, and the exception that leaves it.
abbrev pub Ended : Type 0
Ended = Resolver × Option ResolverError

abbrev pub resolving_error : Bytes → ResolverError
resolving_error what = record { code = general_resolving_error; what = what }

abbrev pub driver_failure : Bytes → ResolverError
driver_failure what = record { code = driver_resolving_error; what = what }

abbrev pub send_opt : ClientInfo → Option Bytes → Resolver → Resolver
send_opt client none s = s
send_opt client (some b) s = emit (send_data client b) s

unfoldable pub send_reply : ResolverRequest → Resolver → Resolver
send_reply r = send_opt r.client_info (reply_of r.type r)

unfoldable pub send_error_reply : ResolverRequest → ResolverError → Resolver → Resolver
send_error_reply r e = send_opt r.client_info (error_reply_of r.type r e.code e.what)

abbrev pub cache_entry_of : Driver → ResolverRequest → CacheEntry
cache_entry_of d r = record {
  database_id = d.unique_id;
  dst = r.number;
  lrn = r.result.local_routing_number;
  raw = r.result.raw_data;
  tag = r.result.local_routing_tag;
}

-- `now` is the system clock in milliseconds.
unfoldable pub handle_request_is_done : ℕ → ResolverRequest → Driver → Resolver → Resolver
handle_request_is_done now r d s =
    let counted = emit (finished_increment d.unique_id (now - r.req_start)) s in
    let cached =
      if eq_ℤ d.driver_type (pos 0)
      then emit (cache_sync (cache_entry_of d r)) counted
      else counted in
    send_reply r cached

-- The three handlers of `resolve`, and the two of `parse_response`.
unfoldable pub resolve_error : Exception → ResolverError
resolve_error (driver_error what) = driver_failure what
resolve_error (http_error what) = resolving_error what
resolve_error other = resolving_error (codes "unknown resovling exception")

unfoldable pub parse_error : Exception → ResolverError
parse_error (driver_error what) = driver_failure what
parse_error (http_error what) = resolving_error (codes "unknown resovling exception")
parse_error other = resolving_error (codes "unknown resovling exception")

-- `waiting_requests.emplace`, then the HTTP client.
unfoldable pub make_http_request : ResolverRequest → HttpRequest → Resolver → Resolver
make_http_request r h s =
    emit (make_request h) (record s { waiting_requests = emplace ◌==◌ r.id r s.waiting_requests })

abbrev pub fail_with : Driver → ResolverError → Resolver → Ended
fail_with d e s = (emit (failed_increment d.unique_id) s, some e)

-- The result of `make_request` is not looked at, but an exception is caught.
unfoldable pub after_make_request : Driver → HttpOutcome → Resolver → Ended
after_make_request d accepted s = (s, none)
after_make_request d refused s = (s, none)
after_make_request d (raised what) s = fail_with d (resolve_error (http_error what)) s

-- The try block of `resolve`, and what follows it.
unfoldable pub run_action : ℕ → HttpOutcome → Driver → ResolverRequest → Action → Resolver → Ended
run_action now http d r (finish result) s =
    (handle_request_is_done now (record r { is_done = true; result = result }) d s, none)
run_action now http d r (fetch h) s = after_make_request d http (make_http_request r h s)
run_action now http d r (raise e) s = fail_with d (resolve_error e) s

unfoldable pub resolve_with : ℕ → HttpOutcome → ResolverRequest → Resolver → Option Driver → Ended
resolve_with now http r s none = (s, some (resolving_error (codes "unknown database id")))
resolve_with now http r s (some d) =
    if not (eq_ℤ d.driver_type r.type)
    then (s, some (resolving_error (codes "request type is unsupported")))
    else run_action now http d r (d.resolve r) (emit (count_increment d.unique_id) s)

unfoldable pub resolve : ℕ → HttpOutcome → ResolverRequest → Resolver → Ended
resolve now http r s = resolve_with now http r s (lookup eq_ℤ r.db_id s.drivers)

-- The catch clauses of both handlers.
unfoldable pub answer : ResolverRequest → Ended → Resolver
answer r (s, none) = s
answer r (s, some e) = send_error_reply r e s

-- `on_data_received` once `parse` has ended.
unfoldable pub on_parsed :
    ℕ → HttpOutcome → Resolver → ResolverRequest × Option ResolverError → Resolver
on_parsed now http s (r, some e) = answer r (s, some e)
on_parsed now http s (r, none) =
    answer r (resolve now http r (emit (send_data r.client_info (provisional_reply r)) s))

unfoldable pub on_data_received : ℕ → HttpOutcome → RecvData → Resolver → Resolver
on_data_received now http recv s =
    on_parsed now http s (parse recv (new_request recv.client_info now))

unfoldable pub parse_ended : ℕ → Driver → ResolverRequest → Resolver → Exception ⊎ SResult → Ended
parse_ended now d r s (inl e) = fail_with d (parse_error e) s
parse_ended now d r s (inr result) =
    (handle_request_is_done now (record r { is_done = true; result = result }) d s, none)

unfoldable pub parse_response_with :
    ℕ → HttpResponse → ResolverRequest → Resolver → Option Driver → Ended
parse_response_with now response r s none =
    (s, some (resolving_error (codes "unknown database id")))
parse_response_with now response r s (some d) =
    if not (eq_ℤ d.driver_type r.type)
    then (s, some (resolving_error (codes "request type is unsupported")))
    else if not response.is_success
    then fail_with d (resolving_error (c_str response.body)) s
    else parse_ended now d r s (d.parse response.body r)

unfoldable pub parse_response : ℕ → HttpResponse → ResolverRequest → Resolver → Ended
parse_response now response r s =
    parse_response_with now response r s (lookup eq_ℤ r.db_id s.drivers)

-- `on_http_response_received` once the request has been looked for.
unfoldable pub respond : ℕ → HttpResponse → Resolver → Option ResolverRequest → Resolver
respond now response s none = s
respond now response s (some r) = answer r (
    parse_response now response r
      (record s { waiting_requests = erase ◌==◌ response.id s.waiting_requests }))

unfoldable pub on_http_response_received : ℕ → HttpResponse → Resolver → Resolver
on_http_response_received now response s =
    respond now response s (lookup ◌==◌ response.id s.waiting_requests)

-- The rows of `load_lnp_databases()`: each instantiates to a driver, or to none that is supported.
unfoldable pub load_rows : List (Option Driver) → List (ℤ × Driver) → List (ℤ × Driver)
load_rows [] m = m
load_rows (none ∷ rows) m = load_rows rows m
load_rows (some d ∷ rows) m = load_rows rows (emplace eq_ℤ d.unique_id d m)

-- `none` stands for any exception while the rows are loaded.
unfoldable pub configure : Option (List (Option Driver)) → Resolver → Resolver × Bool
configure none s = (s, false)
configure (some rows) s = (record s { drivers = load_rows rows [] }, true)
