-- ===== src/Tests/Client.antt =====
-- The HTTP client: one request that is accepted, alone and as the resolver makes it.
use yeti_lnp_resolver.Base.{
  ◌≡◌, refl, ◌⊎◌, ◌+◌, ◌≤◌, true, false, none, some, List, [], ◌∷◌, codes, ℤ, pos, ◌==◌,
  is_negative, All,
}
use yeti_lnp_resolver.Base.Assoc.{lookup, emplace, erase}
use yeti_lnp_resolver.Base.Counting.{count}
use yeti_lnp_resolver.Types.{HttpRequest, HttpResponse, auth_none}
use yeti_lnp_resolver.Resolver.State.{configure, load_rows}
use yeti_lnp_resolver.Resolver.History.{initial}
use yeti_lnp_resolver.EventHandler.{EpollOp, EventHandler, no_events}
use yeti_lnp_resolver.HttpClient.Setup.{Curl, setup, append_headers}
use yeti_lnp_resolver.HttpClient.Transfers.{
  HttpClient, done, check_multi_info, complete, notify_respose_available, update_conn, write_cb,
  write_callback,
}
use yeti_lnp_resolver.HttpClient.Sockets.{run_callbacks, run_callback}
use yeti_lnp_resolver.HttpClient.State.{
  new_client, make_request, SocketAction, handle_event, socket_event_handler,
  respose_notifier_event_handler,
}
use yeti_lnp_resolver.HttpClient.Timer.{fewer_bytes}
use yeti_lnp_resolver.HttpClient.Drain.{hand_all, respose_notifier_event_handler-hand_all}
use yeti_lnp_resolver.HttpClient.Tally.{
  ClientStep, request, event, keep_response, run, accepted_ids, in_progress, answered, run-tally,
}
use yeti_lnp_resolver.Dispatcher.{input_events}
use yeti_lnp_resolver.Base.{eq_ℤ}
use yeti_lnp_resolver.HttpClient.Listening.{AvoidsAll}
use yeti_lnp_resolver.HttpClient.Wakeup.{run-announced}
use yeti_lnp_resolver.HttpClient.Handles.{transfers_of, failed_handles, run-easy_handles}
use yeti_lnp_resolver.HttpClient.System.{KeepsId}
use yeti_lnp_resolver.Tests.Handlers.{start}

-- A kernel in which every call succeeds.
abbrev pub Kernel : Type 0
Kernel = Unit {0}

abbrev pub epoll_ctl : EpollOp → ℤ → Kernel → ℤ × Kernel
epoll_ctl op fd k = (pos 0, k)

abbrev pub base : EventHandler Kernel
base = record { epoll_fd = pos 3; events_map = []; kernel = tt }

abbrev pub client : HttpClient Kernel
client = new_client epoll_ctl (pos 4) (pos 5) base

-- A libcurl that takes everything, and gives the easy handle 11.
abbrev pub curl : Curl
curl = record {
  easy_init = some 11;
  setopt = λ os o. true;
  slist_append = λ list h. true;
  add_handle = true;
}

abbrev http_request : HttpRequest
http_request = record {
  id = 7;
  url = some (codes "http://lnp");
  auth_type = auth_none;
  login = none;
  pass = some (codes "secret");
  verify_ssl = true;
  timeout_ms = 1000;
  headers = codes "Accept: text/plain" ∷ [];
}

-- The socket 9 reports the end of the transfer, with a part of the response before it.
abbrev pub last_action : SocketAction
last_action = record {
  is_ok = true;
  running = pos 0;
  callbacks = write_callback 11 (codes "99") ∷ [];
  messages = done 11 true ∷ [];
}

abbrev steps : List ClientStep
steps =
    request [] curl http_request
    ∷ event fewer_bytes (λ fd select. last_action) (pos 9) no_events
    ∷ []

no_transfers : client.transfers ≡ []
unfolding new_client
no_transfers = refl

no_responses : client.response_queue ≡ []
unfolding new_client
no_responses = refl

abbrev after_steps : HttpClient Kernel × List HttpResponse
after_steps = run epoll_ctl steps (client, [])

run-tally_example :
    in_progress 7 after_steps.0.transfers
      + answered 7 after_steps.0.response_queue
      + answered 7 after_steps.1
    ≡ count (λ i. i == 7) (accepted_ids epoll_ctl steps (client, []))
run-tally_example = run-tally epoll_ctl 7 steps client no_transfers no_responses

steps_avoid : All (AvoidsAll (pos 5)) steps
steps_avoid = (tt, ((λ d select. (tt, tt)), tt))

run-announced_example :
    ((after_steps.0.response_queue ≡ []) ⊎ (1 ≤ after_steps.0.notified))
    × (lookup eq_ℤ (pos 5) after_steps.0.base.events_map ≡ some input_events)
run-announced_example =
    run-announced epoll_ctl (pos 4) (pos 5) base steps refl refl (λ k. refl) steps_avoid

run-easy_handles_example :
    count (λ j. j == 11) after_steps.0.easy_handles
    ≡ transfers_of 11 after_steps.0.transfers
      + count (λ j. j == 11) (failed_handles epoll_ctl steps (client, []))
run-easy_handles_example = run-easy_handles epoll_ctl (pos 4) (pos 5) base steps 11

valid_notifier : is_negative after_steps.0.respose_notifier_fd ≡ false
unfolding new_client make_request setup append_headers run_callbacks handle_event
    socket_event_handler check_multi_info complete notify_respose_available lookup erase
    run_callback write_cb update_conn
valid_notifier = refl

respose_notifier_event_handler-hand_all_example :
    respose_notifier_event_handler keep_response after_steps ≡ (
      record (after_steps.0) { notified = 0; response_queue = [] },
      hand_all keep_response after_steps.0.response_queue after_steps.1,
    )
respose_notifier_event_handler-hand_all_example =
    respose_notifier_event_handler-hand_all keep_response after_steps.0 after_steps.1 valid_notifier

pub drivers_KeepId : All KeepsId start.drivers
unfolding initial configure load_rows emplace
drivers_KeepId = ((λ r h e. cc), ((λ r h e. cc), tt))

pub none_waits : start.waiting_requests ≡ []
unfolding initial configure load_rows emplace
none_waits = refl
