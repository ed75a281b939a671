-- ===== src/HttpClient/Wakeup.antt =====
-- The counter through which `AsyncHttpClient` announces its responses to the dispatcher.
use yeti_lnp_resolver.Base.{
  All, eq_ℤ, ◌≡◌, refl, sym, ◌⊎◌, inl, inr, ℕ, ◌≤◌, Bool, false, Option, none, some, List, [], ◌∷◌,
  ◌==◌, ℤ, is_negative, Bool-cases, arith,
}
use mathlib.Core.Path.{subst}
use yeti_lnp_resolver.Base.Assoc.{lookup}
use yeti_lnp_resolver.Types.{HttpRequest, HttpResponse}
use yeti_lnp_resolver.EventHandler.{EpollOp, EventHandler}
use yeti_lnp_resolver.HttpClient.Setup.{Curl, Setup, setup}
use yeti_lnp_resolver.HttpClient.Transfers.{
  ConnInfo, HttpClient, Callback, Message, done, other_message, notify_respose_available, complete,
  check_multi_info,
}
use yeti_lnp_resolver.HttpClient.State.{
  add_handle, make_with, make_request, respose_notifier_event_handler, new_client,
}
use yeti_lnp_resolver.HttpClient.Core.{Core, core, run_callbacks-core, handle_event-keeps}
use yeti_lnp_resolver.Dispatcher.{input_events}
use yeti_lnp_resolver.HttpClient.Listening.{AvoidsAll, IsAddable, new_client-IsListening}
use yeti_lnp_resolver.HttpClient.Notifier.{run-IsListening}
use yeti_lnp_resolver.HttpClient.Drain.{respose_notifier_event_handler-hand_all}
use yeti_lnp_resolver.HttpClient.Tally.{ClientStep, request, event, keep_response, step, run}

-- The eventfd is valid, and no response waits in the queue, or the counter is not 0.
abbrev IsAnnounced : Core → Type 0
IsAnnounced c = (is_negative c.4 ≡ false) × ((c.2 ≡ []) ⊎ (1 ≤ c.3))

module _ {K : Type 0} where
  complete-IsAnnounced :
      (easy : ℕ) (is_ok : Bool) (o : Option ConnInfo) (c : HttpClient K)
      → IsAnnounced (core c)
      → IsAnnounced (core (complete easy is_ok o c))
  unfolding complete notify_respose_available
  complete-IsAnnounced easy is_ok none c a = a
  complete-IsAnnounced easy is_ok (some conn) c a = rw a.0 (a.0, inr (omega arith))

  check_multi_info-IsAnnounced :
      (ms : List Message) (c : HttpClient K)
      → IsAnnounced (core c)
      → IsAnnounced (core (check_multi_info ms c))
  unfolding check_multi_info
  check_multi_info-IsAnnounced [] c a = a
  check_multi_info-IsAnnounced (done easy is_ok ∷ ms) c a =
      check_multi_info-IsAnnounced ms _
        (complete-IsAnnounced easy is_ok (lookup ◌==◌ easy c.transfers) c a)
  check_multi_info-IsAnnounced (other_message ∷ ms) c a = check_multi_info-IsAnnounced ms c a

  notifier-IsAnnounced :
      (c : HttpClient K) (log : List HttpResponse)
      → IsAnnounced (core c)
      → IsAnnounced (core (respose_notifier_event_handler keep_response (c, log)).0)
  unfolding respose_notifier_event_handler
  notifier-IsAnnounced c log a =
      rw (respose_notifier_event_handler-hand_all keep_response c log a.0) (a.0, inl refl)

module _ {K : Type 0} (epoll_ctl : EpollOp → ℤ → K → ℤ × K) where
  make_with-IsAnnounced :
      (xs : List Callback) (curl : Curl) (r : HttpRequest) (o : Option ℕ) (c : HttpClient K)
      → IsAnnounced (core c)
      → IsAnnounced (core (make_with epoll_ctl xs r curl o c).1)
  make_with-IsAnnounced xs curl r none c a = a
  make_with-IsAnnounced xs curl r (some easy) c a = add_handle-IsAnnounced easy (setup curl r)
    where
      add_handle-IsAnnounced :
          (easy : ℕ) (s : Setup) → IsAnnounced (core (add_handle epoll_ctl xs r easy curl s c).1)
      add_handle-IsAnnounced easy (inl text) = a
      add_handle-IsAnnounced easy (inr os) = elim (Bool-cases curl.add_handle) [
        | inl added ↦ rw added (subst IsAnnounced (sym (run_callbacks-core epoll_ctl xs _)) a)
        | inr failed ↦ rw failed a
      ]

  step-IsAnnounced :
      (x : ClientStep) (w : HttpClient K × List HttpResponse)
      → IsAnnounced (core w.0)
      → IsAnnounced (core (step epoll_ctl x w).0)
  unfolding make_request
  step-IsAnnounced (request xs curl r) w a = make_with-IsAnnounced xs curl r curl.easy_init w.0 a
  step-IsAnnounced (event read multi fd ev) w a =
      handle_event-keeps epoll_ctl keep_response (λ d l. IsAnnounced d)
        (λ l ms d p. check_multi_info-IsAnnounced ms d p) (λ d l p. notifier-IsAnnounced d l p) read
        multi fd ev w.0 w.1 a

  run-IsAnnounced :
      (xs : List ClientStep) (w : HttpClient K × List HttpResponse)
      → IsAnnounced (core w.0)
      → IsAnnounced (core (run epoll_ctl xs w).0)
  run-IsAnnounced [] w a = a
  run-IsAnnounced (x ∷ xs) w a = run-IsAnnounced xs (step epoll_ctl x w) (step-IsAnnounced x w a)

  -- After any sequence of requests and events of a new client whose eventfd and epoll descriptor
  -- are valid, and whose eventfd epoll_ctl adds, while libcurl makes no socket callback for the
  -- eventfd: the queue of responses is empty or the eventfd's counter is not 0, and the client's
  -- events_map has the eventfd for input.
  pub run-announced :
      (timer notifier : ℤ) (h : EventHandler K) (xs : List ClientStep)
      → is_negative notifier ≡ false
      → is_negative h.epoll_fd ≡ false
      → IsAddable epoll_ctl notifier
      → All (AvoidsAll notifier) xs
      → let c = (run epoll_ctl xs (new_client epoll_ctl timer notifier h, [])).0 in
        ((c.response_queue ≡ []) ⊎ (1 ≤ c.notified))
        × (lookup eq_ℤ notifier c.base.events_map ≡ some input_events)
  unfolding new_client
  run-announced timer notifier h xs valid set adds avoid =
      let new = new_client epoll_ctl timer notifier h in
      let listening = new_client-IsListening epoll_ctl notifier timer h valid set adds in
      (
        (run-IsAnnounced xs (new, []) (valid, inl refl)).1,
        (run-IsListening epoll_ctl notifier xs (new, []) avoid listening).0,
      )
