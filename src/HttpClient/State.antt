-- ===== src/HttpClient/State.antt =====
-- The requests and the event handlers of `AsyncHttpClient`. H is the state of the handler of its
-- responses, K that of the kernel's epoll instance.
use yeti_lnp_resolver.Base.{
  ℕ, zero, suc, Bool, false, Option, none, some, List, [], ◌∷◌, ◌++◌, ℤ, pos, negsuc, eq_ℤ,
  is_negative, if◌then◌else◌, inl, inr, length,
}
use yeti_lnp_resolver.Types.{HttpRequest, HttpResponse}
use yeti_lnp_resolver.Resolver.State.{HttpOutcome, accepted, refused, raised}
use yeti_lnp_resolver.EventHandler.{Events, EpollOp, EventHandler, link}
use yeti_lnp_resolver.Dispatcher.{input_events}
use yeti_lnp_resolver.HttpClient.Setup.{Curl, Setup, setup}
use yeti_lnp_resolver.HttpClient.Timer.{TimerRead, read_timer}
use yeti_lnp_resolver.HttpClient.Transfers.{
  HttpClient, Callback, Message, set_timer_value, clear_if_last, check_multi_info,
}
use yeti_lnp_resolver.HttpClient.Sockets.{run_callbacks}

-- `curl_multi_socket_action`, and the messages that can be read after it.
pub record SocketAction : Type 0 where
  pub is_ok : Bool
  pub running : ℤ
  pub callbacks : List Callback
  pub messages : List Message

-- `CURL_CSELECT_IN` and so on.
pub record Select : Type 0 where
  pub select_in : Bool
  pub select_out : Bool
  pub select_err : Bool

abbrev pub no_select : Select
no_select = record { select_in = false; select_out = false; select_err = false }

abbrev pub select_of : Events → Select
select_of ev = record { select_in = ev.epollin; select_out = ev.epollout; select_err = ev.epollerr }

module _ {K : Type 0} (epoll_ctl : EpollOp → ℤ → K → ℤ × K) where
  -- `make_request` from the call of `curl_multi_add_handle`; the handle is cleaned up nowhere.
  abbrev pub add_handle :
      List Callback → HttpRequest → ℕ → Curl → Setup → HttpClient K → HttpOutcome × HttpClient K
  add_handle xs r easy curl (inl text) c =
      (raised text, record c { easy_handles = easy ∷ c.easy_handles })
  add_handle xs r easy curl (inr os) c =
      let kept = record c { easy_handles = easy ∷ c.easy_handles } in
      if curl.add_handle
      then (
        accepted,
        run_callbacks epoll_ctl xs (record kept {
          transfers =
              c.transfers
              ++ ((easy, record { id = r.id; options = os; error = []; response = [] }) ∷ []);
        }),
      )
      else (refused, kept)

  -- With the callbacks that libcurl makes while the handle is added.
  abbrev pub make_with :
      List Callback → HttpRequest → Curl → Option ℕ → HttpClient K → HttpOutcome × HttpClient K
  make_with xs r curl none c = (refused, c)
  make_with xs r curl (some easy) c = add_handle xs r easy curl (setup curl r) c

  unfoldable pub make_request :
      List Callback → Curl → HttpRequest → HttpClient K → HttpOutcome × HttpClient K
  unfolding setup run_callbacks
  make_request xs curl r c = make_with xs r curl curl.easy_init c

  -- After `curl_multi_socket_action`.
  abbrev pub acted : SocketAction → HttpClient K → HttpClient K
  acted act c = run_callbacks epoll_ctl act.callbacks (record c { still_running = act.running })

  unfoldable pub socket_event_handler : SocketAction → HttpClient K → HttpClient K
  unfolding run_callbacks check_multi_info set_timer_value
  socket_event_handler act c =
      if act.is_ok then clear_if_last (check_multi_info act.messages (acted act c)) else acted act c

  unfoldable pub timer_event_handler : TimerRead → SocketAction → HttpClient K → HttpClient K
  unfolding read_timer run_callbacks check_multi_info
  timer_event_handler r act c =
      if read_timer c.timer_fd r
      then if act.is_ok then check_multi_info act.messages (acted act c) else acted act c
      else c

-- `handler->on_http_response_received`, where the handler is not null.
abbrev pub hand_over : {H : Type 0} → Option (HttpResponse → H → H) → HttpResponse → H → H
hand_over none r h = h
hand_over (some f) r h = f r h

-- The loop over the queue, on fuel: what is left of the queue, and the handler's state.
unfoldable pub drain :
    {H : Type 0} → Option (HttpResponse → H → H) → ℕ → List HttpResponse → H → List HttpResponse × H
drain f zero q h = (q, h)
drain f (suc fuel) [] h = ([], h)
drain f (suc fuel) (r ∷ q) h = drain f fuel q (hand_over f r h)

-- Reading the eventfd resets it. The queue does not grow in the loop, so that its length is enough.
unfoldable pub respose_notifier_event_handler :
    {K H : Type 0} → Option (HttpResponse → H → H) → HttpClient K × H → HttpClient K × H
unfolding drain
respose_notifier_event_handler f (c, h) =
    let rest = drain f (length c.response_queue) c.response_queue h in
    if is_negative c.respose_notifier_fd
    then (c, h)
    else (record c { notified = 0; response_queue = rest.0 }, rest.1)

-- `Multi` is `curl_multi_socket_action`, on a descriptor (-1 is `CURL_SOCKET_TIMEOUT`) and a mask.
abbrev pub Multi : Type 0
Multi = ℤ → Select → SocketAction

unfoldable pub handle_event :
    {K H : Type 0}
    → (EpollOp → ℤ → K → ℤ × K)
    → Option (HttpResponse → H → H)
    → TimerRead
    → Multi
    → ℤ
    → Events
    → HttpClient K × H
    → HttpClient K × H
unfolding timer_event_handler respose_notifier_event_handler socket_event_handler
handle_event epoll_ctl f read multi fd ev (c, h) =
    if eq_ℤ fd c.timer_fd
    then (timer_event_handler epoll_ctl read (multi (negsuc 0) no_select) c, h)
    else if eq_ℤ fd c.respose_notifier_fd
    then respose_notifier_event_handler f (c, h)
    else (socket_event_handler epoll_ctl (multi fd (select_of ev)) c, h)

-- The constructor, with what `timerfd_create` and `eventfd` returned.
unfoldable pub new_client :
    {K : Type 0} → (EpollOp → ℤ → K → ℤ × K) → ℤ → ℤ → EventHandler K → HttpClient K
unfolding link
new_client epoll_ctl timer notifier h =
    let timed = if is_negative timer then h else (link epoll_ctl timer input_events h).1 in
    record {
      base =
          (if is_negative notifier then timed else (link epoll_ctl notifier input_events timed).1);
      transfers = [];
      easy_handles = [];
      response_queue = [];
      respose_notifier_fd = notifier;
      notified = 0;
      timer_fd = timer;
      it_value = (0, 0);
      still_running = pos 0;
      sockets = [];
    }
