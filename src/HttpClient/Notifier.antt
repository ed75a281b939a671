-- ===== src/HttpClient/Notifier.antt =====
-- The eventfd of `AsyncHttpClient` stays in its `events_map` over requests and events.
use yeti_lnp_resolver.Base.{
  inl, inr, ℕ, Bool, Option, none, some, List, [], ◌∷◌, ◌==◌, ℤ, negsuc, eq_ℤ, is_negative,
  Bool-cases, All,
}
use yeti_lnp_resolver.Base.Assoc.{lookup}
use yeti_lnp_resolver.Types.{HttpRequest, HttpResponse}
use yeti_lnp_resolver.EventHandler.{Events, EpollOp}
use yeti_lnp_resolver.HttpClient.Setup.{Curl, Setup, setup}
use yeti_lnp_resolver.HttpClient.Timer.{TimerRead, read_timer}
use yeti_lnp_resolver.HttpClient.Transfers.{
  ConnInfo, HttpClient, Callback, Message, done, other_message, check_multi_info, complete,
  notify_respose_available, clear_if_last, is_last,
}
use yeti_lnp_resolver.HttpClient.State.{
  SocketAction, no_select, select_of, Select, acted, socket_event_handler, timer_event_handler,
  respose_notifier_event_handler, Multi, handle_event, add_handle, make_with, make_request,
}
use yeti_lnp_resolver.HttpClient.Listening.{
  Avoids, AvoidsAll, IsListening, run_callbacks-IsListening, set_timer_value-IsListening,
}
use yeti_lnp_resolver.HttpClient.Tally.{ClientStep, request, event, keep_response, step, run}

module _ {K : Type 0} (epoll_ctl : EpollOp → ℤ → K → ℤ × K) (n : ℤ) where
  complete-IsListening :
      (easy : ℕ) (is_ok : Bool) (o : Option ConnInfo) (c : HttpClient K)
      → IsListening epoll_ctl n c
      → IsListening epoll_ctl n (complete easy is_ok o c)
  unfolding complete notify_respose_available
  complete-IsListening easy is_ok none c l = l
  complete-IsListening easy is_ok (some conn) c l =
      elim (Bool-cases (is_negative c.respose_notifier_fd)) [
        | inl unset ↦ rw unset l
        | inr valid ↦ rw valid l
      ]

  check_multi_info-IsListening :
      (ms : List Message) (c : HttpClient K)
      → IsListening epoll_ctl n c
      → IsListening epoll_ctl n (check_multi_info ms c)
  unfolding check_multi_info
  check_multi_info-IsListening [] c l = l
  check_multi_info-IsListening (done easy is_ok ∷ ms) c l =
      check_multi_info-IsListening ms (complete easy is_ok (lookup ◌==◌ easy c.transfers) c)
        (complete-IsListening easy is_ok (lookup ◌==◌ easy c.transfers) c l)
  check_multi_info-IsListening (other_message ∷ ms) c l = check_multi_info-IsListening ms c l

  clear_if_last-IsListening :
      (c : HttpClient K) → IsListening epoll_ctl n c → IsListening epoll_ctl n (clear_if_last c)
  clear_if_last-IsListening c l = elim (Bool-cases (is_last c.still_running)) [
    | inl last ↦ rw last (set_timer_value-IsListening epoll_ctl n (negsuc 0) c l)
    | inr more ↦ rw more l
  ]

  acted-IsListening :
      (act : SocketAction) (c : HttpClient K)
      → All (Avoids n) act.callbacks
      → IsListening epoll_ctl n c
      → IsListening epoll_ctl n (acted epoll_ctl act c)
  acted-IsListening act c a l =
      run_callbacks-IsListening epoll_ctl n act.callbacks (record c { still_running = act.running })
        a l

  socket_event_handler-IsListening :
      (act : SocketAction) (c : HttpClient K)
      → All (Avoids n) act.callbacks
      → IsListening epoll_ctl n c
      → IsListening epoll_ctl n (socket_event_handler epoll_ctl act c)
  unfolding socket_event_handler
  socket_event_handler-IsListening act c a l =
      let after = acted-IsListening act c a l in
      elim (Bool-cases act.is_ok) [
        | inl ok ↦ rw ok (
            clear_if_last-IsListening (check_multi_info act.messages (acted epoll_ctl act c))
              (check_multi_info-IsListening act.messages (acted epoll_ctl act c) after))
        | inr failed ↦ rw failed after
      ]

  timer_event_handler-IsListening :
      (r : TimerRead) (act : SocketAction) (c : HttpClient K)
      → All (Avoids n) act.callbacks
      → IsListening epoll_ctl n c
      → IsListening epoll_ctl n (timer_event_handler epoll_ctl r act c)
  unfolding timer_event_handler
  timer_event_handler-IsListening r act c a l =
      let after = acted-IsListening act c a l in
      elim (Bool-cases (read_timer c.timer_fd r)) [
        | inl read ↦ rw read (elim (Bool-cases act.is_ok) [
          | inl ok ↦ rw ok (check_multi_info-IsListening act.messages (acted epoll_ctl act c) after)
          | inr failed ↦ rw failed after
        ])
        | inr unread ↦ rw unread l
      ]

  notifier-IsListening :
      (c : HttpClient K) (log : List HttpResponse)
      → IsListening epoll_ctl n c
      → IsListening epoll_ctl n (respose_notifier_event_handler keep_response (c, log)).0
  unfolding respose_notifier_event_handler
  notifier-IsListening c log l = elim (Bool-cases (is_negative c.respose_notifier_fd)) [
    | inl unset ↦ rw unset l
    | inr valid ↦ rw valid l
  ]

  handle_event-IsListening :
      (read : TimerRead) (multi : Multi) (fd : ℤ) (ev : Events) (c : HttpClient K)
      (log : List HttpResponse)
      → ((d : ℤ) (select : Select) → All (Avoids n) (multi d select).callbacks)
      → IsListening epoll_ctl n c
      → IsListening epoll_ctl n (handle_event epoll_ctl keep_response read multi fd ev (c, log)).0
  unfolding handle_event
  handle_event-IsListening read multi fd ev c log a l = elim (Bool-cases (eq_ℤ fd c.timer_fd)) [
    | inl timer ↦ rw timer (
        timer_event_handler-IsListening read (multi (negsuc 0) no_select) c (a (negsuc 0) no_select)
          l)
    | inr not_timer ↦ rw not_timer (elim (Bool-cases (eq_ℤ fd c.respose_notifier_fd)) [
      | inl notifier ↦ rw notifier (notifier-IsListening c log l)
      | inr socket ↦
          rw socket
            (socket_event_handler-IsListening (multi fd (select_of ev)) c (a fd (select_of ev)) l)
    ])
  ]

  make_with-IsListening :
      (xs : List Callback) (curl : Curl) (r : HttpRequest) (o : Option ℕ) (c : HttpClient K)
      → All (Avoids n) xs
      → IsListening epoll_ctl n c
      → IsListening epoll_ctl n (make_with epoll_ctl xs r curl o c).1
  make_with-IsListening xs curl r none c a l = l
  make_with-IsListening xs curl r (some easy) c a l = added easy (setup curl r)
    where
      added :
          (easy : ℕ) (s : Setup)
          → IsListening epoll_ctl n (add_handle epoll_ctl xs r easy curl s c).1
      added easy (inl text) = l
      added easy (inr os) = elim (Bool-cases curl.add_handle) [
        | inl ok ↦ rw ok (run_callbacks-IsListening epoll_ctl n xs _ a l)
        | inr failed ↦ rw failed l
      ]

  step-IsListening :
      (x : ClientStep) (w : HttpClient K × List HttpResponse)
      → AvoidsAll n x
      → IsListening epoll_ctl n w.0
      → IsListening epoll_ctl n (step epoll_ctl x w).0
  unfolding make_request
  step-IsListening (request xs curl r) w a l =
      make_with-IsListening xs curl r curl.easy_init w.0 a l
  step-IsListening (event read multi fd ev) w a l =
      handle_event-IsListening read multi fd ev w.0 w.1 a l

  pub run-IsListening :
      (xs : List ClientStep) (w : HttpClient K × List HttpResponse)
      → All (AvoidsAll n) xs
      → IsListening epoll_ctl n w.0
      → IsListening epoll_ctl n (run epoll_ctl xs w).0
  run-IsListening [] w a l = l
  run-IsListening (x ∷ xs) w a l =
      run-IsListening xs (step epoll_ctl x w) a.1 (step-IsListening x w a.0 l)
