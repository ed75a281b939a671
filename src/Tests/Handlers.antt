-- ===== src/Tests/Handlers.antt =====
-- The handlers of the resolver on a tagged request, a duplicate of it, and the HTTP response.
use yeti_lnp_resolver.Base.{
  ◌≡◌, refl, inl, inr, false, true, Option, none, some, List, [], ◌∷◌, ◌++◌, codes, ◌==◌, pos, eq_ℤ,
  length, ltb→lt, suc, ◌+◌,
}
use yeti_lnp_resolver.Base.Assoc.{lookup, emplace, erase}
use yeti_lnp_resolver.Types.{
  ClientInfo, RecvData, ResolverRequest, HttpRequest, auth_none, HttpResponse, new_request,
  empty_result,
}
use yeti_lnp_resolver.Resolver.Request.{encode_tagged, parse}
use yeti_lnp_resolver.Resolver.State.{
  Resolver, Driver, finish, fetch, accepted, raised, on_data_received, on_http_response_received,
  configure, load_rows, on_parsed, resolve, resolve_with, run_action, after_make_request,
  make_http_request, answer, respond, parse_response, parse_response_with, parse_ended,
  handle_request_is_done, send_reply,
}
use yeti_lnp_resolver.Resolver.Reply.{reply_of, provisional_reply, tagged_reply}
use yeti_lnp_resolver.Resolver.Log.{answers, finals}
use yeti_lnp_resolver.Resolver.Parsing.{received}
use yeti_lnp_resolver.Resolver.Answers.{IsFresh, on_data_received-answers}
use yeti_lnp_resolver.Resolver.Invariant.{IsValid, on_data_received-IsValid, configure-IsValid}
use yeti_lnp_resolver.Resolver.History.{
  Reach, initial, receive, Call, request, respond_to, reconfigure, here, initial-IsValid, reload,
  next, initial-answers, response, due, call_all, call_all-IsValid,
  on_http_response_received-finals,
}
use yeti_lnp_resolver.Resolver.Addressing.{
  Extends, on_data_received-Extends, on_http_response_received-Extends,
}
use yeti_lnp_resolver.Resolver.Delivery.{transcript, on_http_response_received-transcript}
use yeti_lnp_resolver.Resolver.Collisions.{NeedsTransfer, duplicate_lost}

abbrev pub client : ClientInfo
client = record { addr = (2130706433, 5060); addr_size = 16; recv_fd = pos 3 }

abbrev transfer : ResolverRequest → HttpRequest
transfer r = record {
  id = r.id;
  url = some (codes "http://lnp");
  auth_type = auth_none;
  login = none;
  pass = none;
  verify_ssl = false;
  timeout_ms = 1000;
  headers = [];
}

abbrev pub local : Driver
local = record {
  unique_id = pos 1;
  name = codes "local";
  driver_type = pos 0;
  resolve = λ r. finish (record r.result { local_routing_number = r.number });
  parse = λ body r. inr r.result;
}

abbrev pub remote : Driver
remote = record {
  unique_id = pos 2;
  name = codes "remote";
  driver_type = pos 0;
  resolve = λ r. fetch (transfer r);
  parse = λ body r. inr (record r.result { local_routing_number = body });
}

abbrev pub rows : Option (List (Option Driver))
rows = some (some local ∷ none ∷ some remote ∷ [])

abbrev pub start : Resolver
start = (configure rows initial).0

abbrev pub to_remote : RecvData
to_remote = received client (encode_tagged 7 2 (codes "123")) (0 ∷ [])

abbrev to_local : RecvData
to_local = received client (encode_tagged 8 1 (codes "456")) []

abbrev waiting : Resolver
waiting = on_data_received 5 accepted to_remote start

abbrev pub reply : HttpResponse
reply = record { id = 7; is_success = true; body = codes "999" }

abbrev pub served : Resolver
served = on_http_response_received 9 reply waiting

abbrev pub asked_remote : ResolverRequest
asked_remote = record {
  id = 7;
  type = pos 0;
  db_id = pos 2;
  client_info = client;
  number = codes "123";
  req_start = 5;
  is_done = false;
  result = empty_result;
}

pub remote_IsFresh : IsFresh 7 start
unfolding initial configure load_rows emplace lookup new_request parse on_data_received on_parsed
    resolve resolve_with run_action after_make_request make_http_request answer
    on_http_response_received respond erase parse_response parse_response_with parse_ended
    handle_request_is_done send_reply reply_of provisional_reply tagged_reply
remote_IsFresh = refl

local_IsFresh : IsFresh 8 served
unfolding initial configure load_rows emplace lookup new_request parse on_data_received on_parsed
    resolve resolve_with run_action after_make_request make_http_request answer
    on_http_response_received respond erase parse_response parse_response_with parse_ended
    handle_request_is_done send_reply reply_of provisional_reply tagged_reply
local_IsFresh = refl

remote_waits : lookup ◌==◌ 7 waiting.waiting_requests ≡ some asked_remote
unfolding initial configure load_rows emplace lookup new_request parse on_data_received on_parsed
    resolve resolve_with run_action after_make_request make_http_request answer
    on_http_response_received respond erase parse_response parse_response_with parse_ended
    handle_request_is_done send_reply reply_of provisional_reply tagged_reply
remote_waits = refl

start_has_remote : lookup eq_ℤ (pos 2) start.drivers ≡ some remote
unfolding initial configure load_rows emplace lookup new_request parse on_data_received on_parsed
    resolve resolve_with run_action after_make_request make_http_request answer
    on_http_response_received respond erase parse_response parse_response_with parse_ended
    handle_request_is_done send_reply reply_of provisional_reply tagged_reply
start_has_remote = refl

waiting_has_remote : lookup eq_ℤ (pos 2) waiting.drivers ≡ some remote
unfolding initial configure load_rows emplace lookup new_request parse on_data_received on_parsed
    resolve resolve_with run_action after_make_request make_http_request answer
    on_http_response_received respond erase parse_response parse_response_with parse_ended
    handle_request_is_done send_reply reply_of provisional_reply tagged_reply
waiting_has_remote = refl

abbrev history : Reach initial 2 (on_data_received 6 accepted to_local served)
history =
    next
      (next
        (next (next (here refl) (reload rows refl) refl)
          (request {s = start} 5 accepted to_remote refl (ltb→lt 5 to_remote.length refl)
            remote_IsFresh tt)
          refl)
        (response 9 reply refl) refl)
      (request {s = served} 6 accepted to_local refl (ltb→lt 5 to_local.length refl) local_IsFresh
        tt)
      refl

initial-answers_example :
    finals (on_data_received 6 accepted to_local served).effects
      + length (on_data_received 6 accepted to_local served).waiting_requests
    ≡ 2
initial-answers_example = initial-answers 2 (on_data_received 6 accepted to_local served) history

on_data_received-answers_example : answers waiting ≡ suc (answers start)
on_data_received-answers_example =
    on_data_received-answers 5 accepted to_remote start (ltb→lt 5 to_remote.length refl)
      remote_IsFresh tt

abbrev pub start-IsValid : IsValid start
start-IsValid = configure-IsValid rows initial initial-IsValid

abbrev waiting-IsValid : IsValid waiting
waiting-IsValid = on_data_received-IsValid 5 accepted to_remote start start-IsValid

-- The same request twice, the second time with a client that throws, and the response.
abbrev calls : List Call
calls =
    reconfigure rows
    ∷ receive 5 accepted to_remote
    ∷ receive 6 (raised (codes "no memory")) to_remote
    ∷ respond_to 9 reply
    ∷ []

call_all-IsValid_example : IsValid (call_all calls initial)
call_all-IsValid_example = call_all-IsValid calls initial initial-IsValid

on_http_response_received-finals_example :
    (finals served.effects ≡ finals waiting.effects + due (lookup ◌==◌ 7 waiting.waiting_requests))
    × (served.waiting_requests ≡ erase ◌==◌ 7 waiting.waiting_requests)
on_http_response_received-finals_example =
    on_http_response_received-finals 9 reply waiting waiting-IsValid

on_data_received-Extends_example : Extends client 7 start waiting
on_data_received-Extends_example =
    on_data_received-Extends 5 accepted to_remote start (ltb→lt 5 to_remote.length refl)

on_http_response_received-Extends_example : Extends client 7 waiting served
on_http_response_received-Extends_example =
    on_http_response_received-Extends 9 reply waiting asked_remote remote_waits

abbrev needs :
    (s : Resolver) → lookup eq_ℤ (pos 2) s.drivers ≡ some remote → NeedsTransfer 5 to_remote s
unfolding new_request parse
needs s e = record {
  request = asked_remote;
  driver = remote;
  http_request = transfer asked_remote;
  parsed = refl;
  versioned = inl refl;
  registered = e;
  typed = refl;
  fetches = refl;
}

abbrev duplicate : Resolver
duplicate = on_data_received 5 accepted to_remote waiting

duplicate_lost_example :
    (duplicate.waiting_requests ≡ waiting.waiting_requests)
    × (finals duplicate.effects ≡ finals waiting.effects)
unfolding needs
duplicate_lost_example =
    duplicate_lost (needs waiting waiting_has_remote) accepted asked_remote tt remote_waits

on_http_response_received-transcript_example :
    on_http_response_received 9 reply waiting ≡ record start {
      effects =
          start.effects
          ++ transcript
              (needs start start_has_remote)
              9
              (record empty_result { local_routing_number = codes "999" });
    }
unfolding needs
on_http_response_received-transcript_example =
    on_http_response_received-transcript (needs start start_has_remote) 9 (codes "999")
      (record empty_result { local_routing_number = codes "999" }) remote_IsFresh refl refl
