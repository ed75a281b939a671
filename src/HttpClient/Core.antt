-- ===== src/HttpClient/Core.antt =====
-- What libcurl's callbacks leave as it is: the transfers' handles and ids, the queue of responses and
-- the counter that announces them.
use mathlib.Core.Path.{subst}
use yeti_lnp_resolver.Base.{
  ◌≡◌, refl, sym, ap, ◌∙◌, inl, inr, ℕ, Option, none, some, List, [], ◌∷◌, ◌==◌, ℤ, negsuc, eq_ℤ,
  is_negative, Bool-cases,
}
use yeti_lnp_resolver.Base.Assoc.{lookup}
use yeti_lnp_resolver.Types.{HttpResponse}
use yeti_lnp_resolver.EventHandler.{Events, EpollOp}
use yeti_lnp_resolver.HttpClient.Timer.{TimerRead, read_timer}
use yeti_lnp_resolver.HttpClient.Transfers.{
  ConnInfo, Poll, poll_none, poll_in, poll_out, poll_inout, poll_remove, SockInfo, HttpClient,
  Callback, socket_callback, timer_callback, write_callback, error_text, Message, update_conn,
  write_cb, write_error, set_timer_value, check_multi_info, clear_if_last, is_last,
}
use yeti_lnp_resolver.HttpClient.Sockets.{
  set_sock, rem_sock, socket_cb, run_callback, run_callbacks,
}
use yeti_lnp_resolver.HttpClient.State.{
  SocketAction, no_select, select_of, acted, socket_event_handler, timer_event_handler,
  respose_notifier_event_handler, Multi, handle_event,
}

-- The easy handles of transfers and the ids of their requests.
abbrev pub ids_of : List (ℕ × ConnInfo) → List (ℕ × ℕ)
ids_of [] = []
ids_of ((k, conn) ∷ m) = (k, conn.id) ∷ ids_of m

-- What the callbacks of libcurl leave as it is.
abbrev pub Core : Type 0
Core = List (ℕ × ℕ) × List ℕ × List HttpResponse × ℕ × ℤ

abbrev pub core : {K : Type 0} → HttpClient K → Core
core c = (ids_of c.transfers, c.easy_handles, c.response_queue, c.notified, c.respose_notifier_fd)

update_conn-ids_of :
    (easy : ℕ) (f : ConnInfo → ConnInfo) (m : List (ℕ × ConnInfo))
    → ((conn : ConnInfo) → (f conn).id ≡ conn.id)
    → ids_of (update_conn easy f m) ≡ ids_of m
unfolding update_conn
update_conn-ids_of easy f [] same = refl
update_conn-ids_of easy f ((k, conn) ∷ m) same = elim (Bool-cases (k == easy)) [
  | inl found ↦ rw found (ap (λ i. (k, i) ∷ ids_of m) (same conn))
  | inr other ↦ rw other (ap (λ l. (k, conn.id) ∷ l) (update_conn-ids_of easy f m same))
]

set_timer_value-core :
    {K : Type 0} (ms : ℤ) (c : HttpClient K) → core (set_timer_value ms c) ≡ core c
unfolding set_timer_value
set_timer_value-core ms c = elim (Bool-cases (is_negative c.timer_fd)) [
  | inl unset ↦ rw unset refl
  | inr valid ↦ rw valid refl
]

module _ {K : Type 0} (epoll_ctl : EpollOp → ℤ → K → ℤ × K) where
  socket_cb-core :
      (easy : ℕ) (fd : ℤ) (what : Poll) (info : Option SockInfo) (c : HttpClient K)
      → core (socket_cb epoll_ctl easy fd what info c) ≡ core c
  unfolding socket_cb set_sock rem_sock
  socket_cb-core easy fd poll_none info c = refl
  socket_cb-core easy fd poll_remove none c = refl
  socket_cb-core easy fd poll_remove (some i) c = refl
  socket_cb-core easy fd poll_in none c = refl
  socket_cb-core easy fd poll_in (some i) c = refl
  socket_cb-core easy fd poll_out none c = refl
  socket_cb-core easy fd poll_out (some i) c = refl
  socket_cb-core easy fd poll_inout none c = refl
  socket_cb-core easy fd poll_inout (some i) c = refl

  run_callback-core : (x : Callback) (c : HttpClient K) → core (run_callback epoll_ctl x c) ≡ core c
  unfolding run_callback write_cb write_error
  run_callback-core (socket_callback easy fd what) c =
      socket_cb-core easy fd what (lookup eq_ℤ fd c.sockets) c
  run_callback-core (timer_callback ms) c = set_timer_value-core ms c
  run_callback-core (write_callback easy chunk) c =
      ap (λ l. (l, c.easy_handles, c.response_queue, c.notified, c.respose_notifier_fd))
        (update_conn-ids_of easy _ c.transfers (λ conn. refl))
  run_callback-core (error_text easy text) c =
      ap (λ l. (l, c.easy_handles, c.response_queue, c.notified, c.respose_notifier_fd))
        (update_conn-ids_of easy _ c.transfers (λ conn. refl))

  pub run_callbacks-core :
      (xs : List Callback) (c : HttpClient K) → core (run_callbacks epoll_ctl xs c) ≡ core c
  unfolding run_callbacks
  run_callbacks-core [] c = refl
  run_callbacks-core (x ∷ xs) c =
      run_callbacks-core xs (run_callback epoll_ctl x c) ∙ run_callback-core x c

  acted-core : (act : SocketAction) (c : HttpClient K) → core (acted epoll_ctl act c) ≡ core c
  acted-core act c = run_callbacks-core act.callbacks (record c { still_running = act.running })

clear_if_last-core : {K : Type 0} (c : HttpClient K) → core (clear_if_last c) ≡ core c
clear_if_last-core c = elim (Bool-cases (is_last c.still_running)) [
  | inl last ↦ rw last (set_timer_value-core (negsuc 0) c)
  | inr more ↦ rw more refl
]

module _ {K : Type 0} (epoll_ctl : EpollOp → ℤ → K → ℤ × K) (P : Core → Type 0)
    (checked : (ms : List Message) (c : HttpClient K)
      → P (core c)
      → P (core (check_multi_info ms c))) where
  -- What `check_multi_info` keeps of the core is kept by the handlers of sockets and of the timer.
  socket_event_handler-keeps :
      (act : SocketAction) (c : HttpClient K)
      → P (core c)
      → P (core (socket_event_handler epoll_ctl act c))
  unfolding socket_event_handler
  socket_event_handler-keeps act c p =
      let after = subst P (sym (acted-core epoll_ctl act c)) p in
      elim (Bool-cases act.is_ok) [
        | inl ok ↦ rw ok (
            subst P
              (sym (clear_if_last-core (check_multi_info act.messages (acted epoll_ctl act c))))
              (checked act.messages (acted epoll_ctl act c) after))
        | inr failed ↦ rw failed after
      ]

  timer_event_handler-keeps :
      (r : TimerRead) (act : SocketAction) (c : HttpClient K)
      → P (core c)
      → P (core (timer_event_handler epoll_ctl r act c))
  unfolding timer_event_handler
  timer_event_handler-keeps r act c p =
      let after = subst P (sym (acted-core epoll_ctl act c)) p in
      elim (Bool-cases (read_timer c.timer_fd r)) [
        | inl read ↦ rw read (elim (Bool-cases act.is_ok) [
          | inl ok ↦ rw ok (checked act.messages (acted epoll_ctl act c) after)
          | inr failed ↦ rw failed after
        ])
        | inr not_read ↦ rw not_read p
      ]

module _ {K H : Type 0} (epoll_ctl : EpollOp → ℤ → K → ℤ × K) (f : Option (HttpResponse → H → H))
    (P : Core → H → Type 0)
    (checked : (h : H) (ms : List Message) (c : HttpClient K)
      → P (core c) h
      → P (core (check_multi_info ms c)) h)
    (handed : (c : HttpClient K) (h : H)
      → P (core c) h
      → let w = respose_notifier_event_handler f (c, h) in P (core w.0) w.1) where
  -- An event keeps what the completed transfers and the loop over the queue keep.
  pub handle_event-keeps :
      (read : TimerRead) (multi : Multi) (fd : ℤ) (ev : Events) (c : HttpClient K) (h : H)
      → P (core c) h
      → let w = handle_event epoll_ctl f read multi fd ev (c, h) in P (core w.0) w.1
  unfolding handle_event
  handle_event-keeps read multi fd ev c h p =
      let at : Core → Type 0 = λ d. P d h in
      elim (Bool-cases (eq_ℤ fd c.timer_fd)) [
        | inl timer ↦ rw timer (
            timer_event_handler-keeps epoll_ctl at (checked h) read (multi (negsuc 0) no_select) c
              p)
        | inr not_timer ↦ rw not_timer (elim (Bool-cases (eq_ℤ fd c.respose_notifier_fd)) [
          | inl notifier ↦ rw notifier (handed c h p)
          | inr socket ↦
              rw socket
                (socket_event_handler-keeps epoll_ctl at (checked h) (multi fd (select_of ev)) c p)
        ])
      ]
