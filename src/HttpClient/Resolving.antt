-- ===== src/HttpClient/Resolving.antt =====
-- Each request that waits in the resolver has its part in the HTTP client.
use mathlib.Core.Path.{subst}
use yeti_lnp_resolver.Base.{
  ◌≡◌, refl, sym, ap, ◌∙◌, inl, inr, ℕ, ◌+◌, ◌≤◌, true, Option, none, some, List, [], ◌∷◌, ◌==◌, ℤ,
  is_negative, Bool-cases, All, arith,
}
use yeti_lnp_resolver.Base.Assoc.{lookup}
use yeti_lnp_resolver.Base.Counting.{count}
use yeti_lnp_resolver.Types.{RecvData, ResolverRequest, new_request, HttpRequest, HttpResponse}
use yeti_lnp_resolver.Resolver.Request.{parse}
use yeti_lnp_resolver.Resolver.State.{
  Resolver, accepted, on_data_received, on_http_response_received,
}
use yeti_lnp_resolver.Resolver.Invariant.{IsValid, on_data_received-IsValid}
use yeti_lnp_resolver.EventHandler.{EpollOp}
use yeti_lnp_resolver.HttpClient.Setup.{Curl}
use yeti_lnp_resolver.HttpClient.Transfers.{HttpClient, Callback}
use yeti_lnp_resolver.HttpClient.State.{make_request, respose_notifier_event_handler}
use yeti_lnp_resolver.HttpClient.Core.{core, ids_of, handle_event-keeps}
use yeti_lnp_resolver.HttpClient.Drain.{respose_notifier_event_handler-hand_all}
use yeti_lnp_resolver.HttpClient.Tally.{
  in_progress, answered, outstanding, check_multi_info-outstanding, make_with-outstanding,
  in_progress-ids_of, id_if_accepted,
}
use yeti_lnp_resolver.HttpClient.Asked.{asked_parsed, asked, on_parsed-Grows}
use yeti_lnp_resolver.HttpClient.System.{
  Incoming, datagram, client_event, KeepsId, start_request, receive, receive_all, IsAccepted,
  AllAccepted,
}
use yeti_lnp_resolver.HttpClient.Served.{
  IsServed, hand_all-served, asked_parsed-id, made_with, grown-served,
}

module _ {K : Type 0} (epoll_ctl : EpollOp → ℤ → K → ℤ × K) where
  start_request-outstanding :
      (n : ℕ) (xs : List Callback) (curl : Curl) (o : Option HttpRequest) (c : HttpClient K)
      → (start_request epoll_ctl xs curl o c).0 ≡ accepted
      → outstanding n (core (start_request epoll_ctl xs curl o c).1)
        ≡ outstanding n (core c) + made_with o n
  unfolding make_request
  start_request-outstanding n xs curl none c ok = omega arith
  start_request-outstanding n xs curl (some h) c ok =
      make_with-outstanding epoll_ctl n xs curl h curl.easy_init c
      ∙ ap (λ out. outstanding n (core c) + count (λ i. i == n) (id_if_accepted out h.id)) ok
      ∙ omega arith

  datagram-IsServed :
      (now : ℕ) (recv : RecvData) (xs : List Callback) (curl : Curl) (c : HttpClient K)
      (s : Resolver)
      → IsAccepted epoll_ctl (datagram now recv xs curl) (c, s)
      → IsServed (core c) s
      → let w = receive epoll_ctl (datagram now recv xs curl) (c, s) in IsServed (core w.0) w.1
  unfolding asked on_data_received
  datagram-IsServed now recv xs curl c s ok (v, k, served) =
      let p = parse recv (new_request recv.client_info now) in
      let o = asked_parsed s p in
      let out = (start_request epoll_ctl xs curl o c).0 in
      let grows = on_parsed-Grows now out s p in
      (
        on_data_received-IsValid now out recv s v,
        subst (λ ds. All KeepsId ds) (sym grows.1) k,
        λ n w h.
            grown-served o p.0 s.waiting_requests (λ i. outstanding i (core c))
              (λ i. outstanding i (core (start_request epoll_ctl xs curl o c).1))
              (λ g e. asked_parsed-id s p g k e) (λ i. start_request-outstanding i xs curl o c ok)
              served n w (sym (ap (lookup ◌==◌ n) grows.0) ∙ h),
      )

  notifier-unset :
      {H : Type 0} (f : Option (HttpResponse → H → H)) (c : HttpClient K) (h : H)
      → is_negative c.respose_notifier_fd ≡ true
      → respose_notifier_event_handler f (c, h) ≡ (c, h)
  unfolding respose_notifier_event_handler
  notifier-unset f c h unset = rw unset refl

  notifier-IsServed :
      (now : ℕ) (c : HttpClient K) (s : Resolver)
      → IsServed (core c) s
      → let w = respose_notifier_event_handler (some (on_http_response_received now)) (c, s) in
        IsServed (core w.0) w.1
  notifier-IsServed now c s (v, k, served) = elim (Bool-cases (is_negative c.respose_notifier_fd)) [
    | inl unset ↦
        rw (notifier-unset (some (on_http_response_received now)) c s unset) (v, k, served)
    | inr valid ↦
        rw
          (respose_notifier_event_handler-hand_all (some (on_http_response_received now)) c s valid)
          (hand_all-served now (λ n. count (λ p. p.1 == n) (ids_of c.transfers)) c.response_queue s
            v k served)
  ]

  receive-IsServed :
      (x : Incoming) (w : HttpClient K × Resolver)
      → IsAccepted epoll_ctl x w
      → IsServed (core w.0) w.1
      → let u = receive epoll_ctl x w in IsServed (core u.0) u.1
  receive-IsServed (datagram now recv xs curl) (c, s) ok i =
      datagram-IsServed now recv xs curl c s ok i
  receive-IsServed (client_event now read multi fd ev) (c, s) ok i =
      handle_event-keeps epoll_ctl (some (on_http_response_received now)) IsServed
        (λ h ms d p. (
          p.0,
          p.1,
          λ n r e. let same = check_multi_info-outstanding n ms d in omega (arith, p.2 n r e, same),
        ))
        (λ d h p. notifier-IsServed now d h p) read multi fd ev c s i

  receive_all-IsServed :
      (xs : List Incoming) (w : HttpClient K × Resolver)
      → AllAccepted epoll_ctl xs w
      → IsServed (core w.0) w.1
      → let u = receive_all epoll_ctl xs w in IsServed (core u.0) u.1
  receive_all-IsServed [] w ok i = i
  receive_all-IsServed (x ∷ xs) w ok i =
      receive_all-IsServed xs (receive epoll_ctl x w) ok.1 (receive-IsServed x w ok.0 i)

  -- No request is stuck: from a valid resolver in which none waits, with drivers that keep the
  -- request's id, after any datagrams and events of the HTTP client, if the client has accepted
  -- all HTTP requests, each request that waits has a transfer in progress with its id, or a
  -- response in the client's queue.
  pub receive_all-outstanding :
      (xs : List Incoming) (c : HttpClient K) (s : Resolver) (n : ℕ) (r : ResolverRequest)
      → IsValid s
      → All KeepsId s.drivers
      → s.waiting_requests ≡ []
      → AllAccepted epoll_ctl xs (c, s)
      → lookup ◌==◌ n (receive_all epoll_ctl xs (c, s)).1.waiting_requests ≡ some r
      → let client = (receive_all epoll_ctl xs (c, s)).0 in
        1 ≤ in_progress n client.transfers + answered n client.response_queue
  unfolding lookup
  receive_all-outstanding xs c s n r v k none_waits ok h =
      let client = (receive_all epoll_ctl xs (c, s)).0 in
      let served = receive_all-IsServed xs (c, s) ok (v, k, rw none_waits (λ m w found. cc)) in
      omega (arith, in_progress-ids_of n client.transfers, served.2 n r h)
