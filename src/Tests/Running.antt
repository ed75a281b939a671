-- ===== src/Tests/Running.antt =====
-- The running program: one datagram, which asks for a transfer, on the socket 3.
use yeti_lnp_resolver.Base.{
  ◌≡◌, refl, sym, ap, ◌∙◌, ◌+◌, ◌≤◌, ◌⊎◌, inr, ℕ, suc, true, false, Option, none, some, List, [],
  ◌∷◌, ◌++◌, Bytes, codes, pos, ◌==◌, read_u32, arith,
}
use mathlib.Core.List.{append_assoc, append-nil}
use yeti_lnp_resolver.Base.Assoc.{lookup, emplace}
use yeti_lnp_resolver.Types.{HttpRequest, new_request}
use yeti_lnp_resolver.Resolver.Request.{encode_tagged, parse}
use yeti_lnp_resolver.Resolver.Reply.{provisional_reply}
use yeti_lnp_resolver.Resolver.State.{
  configure, load_rows, on_data_received, on_parsed, resolve, resolve_with, run_action,
  after_make_request, make_http_request, answer,
}
use yeti_lnp_resolver.Resolver.History.{initial}
use yeti_lnp_resolver.Resolver.Log.{answers}
use yeti_lnp_resolver.Resolver.Answers.{IsFresh}
use yeti_lnp_resolver.Resolver.Addressing.{Extends}
use yeti_lnp_resolver.Transport.{datagram, recv_data}
use yeti_lnp_resolver.Transport as Transport
use yeti_lnp_resolver.Transport.Receive.{sender}
use yeti_lnp_resolver.EventHandler.{is_can_handle, find_events, link, assign}
use yeti_lnp_resolver.Dispatcher.{
  Event, Wait, ready, dispatch, handle_events, round, loop, LoopTerminator, all_beside,
  input_events,
}
use yeti_lnp_resolver.HttpClient.Setup.{
  CurlOption, url, username, password, http_header, Setup, ◌>>=◌, set_url, set_credentials, setup,
  append_headers, set_list,
}
use yeti_lnp_resolver.HttpClient.Sockets.{run_callbacks}
use yeti_lnp_resolver.HttpClient.State.{new_client, make_request}
use yeti_lnp_resolver.HttpClient.Timer.{fewer_bytes}
use yeti_lnp_resolver.HttpClient.Asked.{asked}
use yeti_lnp_resolver.HttpClient.Tally.{in_progress, answered}
use yeti_lnp_resolver.Server.{Surroundings, Server, handlers}
use yeti_lnp_resolver.Server.Refinement.{Accepts, loop-outstanding}
use yeti_lnp_resolver.Server.Serving.{dispatch-answers}
use yeti_lnp_resolver.Tests.Handlers.{start, asked_remote, start-IsValid}
use yeti_lnp_resolver.Tests.Client.{
  Kernel, epoll_ctl, base, client, curl, last_action, drivers_KeepId, none_waits,
}

abbrev bytes : Bytes
bytes = encode_tagged 7 2 (codes "123")

abbrev at : ℕ → Surroundings
at t = record {
  now = 5;
  received = datagram bytes (2130706433, 5060) 16;
  callbacks = [];
  curl = curl;
  read = fewer_bytes;
  multi = λ fd select. last_action;
}

abbrev server : Server Kernel
server = record {
  sockets = (pos 3, input_events) ∷ [];
  client = client;
  resolver = start;
  events = 0;
}

abbrev arrival : Event
arrival = record { fd = pos 3; events = input_events }

append_headers_all : (hs list : List Bytes) → append_headers curl hs list ≡ inr (list ++ hs)
unfolding append_headers
append_headers_all [] list = ap (λ l. inr l) (sym (append-nil list))
append_headers_all (h ∷ hs) list =
    append_headers_all hs (list ++ (h ∷ [])) ∙ ap (λ l. inr l) (append_assoc list (h ∷ []) hs)

abbrev Succeeds : {A : Type 0} → Bytes ⊎ A → Type 0
Succeeds {A} x = (a : A) × (x ≡ inr a)

-- A chain whose steps succeed succeeds.
bind-Succeeds :
    {A : Type 0} (x : Bytes ⊎ A) (f : A → Setup)
    → Succeeds x
    → ((a : A) → Succeeds (f a))
    → Succeeds (x >>= f)
bind-Succeeds x f (a, e) next = ((next a).0, ap (λ y. y >>= f) e ∙ (next a).1)

set_url-Succeeds : (u : Option Bytes) → Succeeds (set_url curl u [])
set_url-Succeeds none = ([], refl)
set_url-Succeeds (some u) = (url u ∷ [], refl)

set_credentials-Succeeds :
    (login pass : Option Bytes) (os : List CurlOption)
    → Succeeds (set_credentials curl login pass os)
set_credentials-Succeeds none pass os = (os, refl)
set_credentials-Succeeds (some l) none os = (os, refl)
set_credentials-Succeeds (some l) (some p) os =
    ((os ++ (username l ∷ [])) ++ (password p ∷ []), refl)

set_list-Succeeds : (os : List CurlOption) (hs : List Bytes) → Succeeds (set_list curl os hs)
set_list-Succeeds os [] = (os, refl)
set_list-Succeeds os (h ∷ hs) = (os ++ (http_header (h ∷ hs) ∷ []), refl)

setup-Succeeds : (h : HttpRequest) → Succeeds (setup curl h)
unfolding setup
setup-Succeeds h =
    bind-Succeeds _ _
      (bind-Succeeds _ _
        (bind-Succeeds _ _
          (bind-Succeeds _ _
            (bind-Succeeds _ _
              (bind-Succeeds _ _
                (bind-Succeeds _ _ (bind-Succeeds _ _ (set_url-Succeeds h.url) (λ os. (_, refl)))
                  (λ os. (_, refl)))
                (λ os. set_credentials-Succeeds h.login h.pass os))
              (λ os. (_, refl)))
            (λ os. bind-Succeeds _ _ (_, append_headers_all h.headers []) (set_list-Succeeds os)))
          (λ os. (_, refl)))
        (λ os. (_, refl)))
      (λ os. (_, refl))

at-Accepts : Accepts epoll_ctl at
unfolding make_request
at-Accepts t h c = rw (setup-Succeeds h).1 refl

abbrev terminator : LoopTerminator Kernel
terminator = record { event_fd = pos 6; counter = 0; base = base }

abbrev arrivals : List Wait
arrivals = ready (arrival ∷ []) ∷ []

abbrev after_loop : Server Kernel
after_loop = (loop (all_beside (handlers epoll_ctl at)) arrivals ((server, terminator), false)).0.0

the_request_waits : lookup ◌==◌ 7 after_loop.resolver.waiting_requests ≡ some asked_remote
unfolding loop round handle_events dispatch is_can_handle find_events link assign
    Transport.handle_event recv_data initial configure load_rows emplace lookup asked new_request
    parse make_request setup append_headers run_callbacks new_client on_data_received on_parsed
    resolve resolve_with run_action after_make_request make_http_request answer provisional_reply
the_request_waits = refl

loop-outstanding_example :
    1 ≤ in_progress 7 after_loop.client.transfers + answered 7 after_loop.client.response_queue
loop-outstanding_example =
    loop-outstanding epoll_ctl at arrivals server terminator 7 asked_remote at-Accepts start-IsValid
      drivers_KeepId none_waits the_request_waits

is_declined : is_can_handle (pos 3) input_events client.base.events_map ≡ false
unfolding is_can_handle find_events link assign new_client emplace lookup
is_declined = refl

is_able : is_can_handle (pos 3) input_events server.sockets ≡ true
unfolding is_can_handle find_events lookup
is_able = refl

is_fresh : IsFresh (read_u32 bytes 0) start
unfolding initial configure load_rows emplace lookup
is_fresh = refl

dispatch-answers_example :
    (answers (dispatch arrival (handlers epoll_ctl at) (server, false)).0.resolver
      ≡ suc (answers start))
    × Extends
        (sender 3 (2130706433, 5060) 16)
        (read_u32 bytes 0)
        start
        (dispatch arrival (handlers epoll_ctl at) (server, false)).0.resolver
    × ((dispatch arrival (handlers epoll_ctl at) (server, false)).1 ≡ false)
dispatch-answers_example =
    dispatch-answers epoll_ctl at arrival 3 bytes (2130706433, 5060) 16 server at-Accepts refl refl
      (omega arith) (omega arith) is_declined is_able is_fresh
