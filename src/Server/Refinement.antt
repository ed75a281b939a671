-- ===== src/Server/Refinement.antt =====
-- The loop of the dispatcher does to the HTTP client and the resolver what a sequence of datagrams and
-- events of the client does.
use mathlib.Core.Path.{subst}
use yeti_lnp_resolver.Base.{
  ◌≡◌, refl, sym, ap, ◌∙◌, inl, inr, ℕ, ◌+◌, ◌≤◌, Bool, true, false, Option, none, some, List, [],
  ◌∷◌, ◌++◌, ℤ, pos, negsuc, Bool-cases, All, ◌==◌,
}
use yeti_lnp_resolver.Base.Assoc.{lookup}
use yeti_lnp_resolver.Types.{RecvData, ResolverRequest, HttpRequest}
use yeti_lnp_resolver.Resolver.State.{Resolver, accepted}
use yeti_lnp_resolver.Resolver.Invariant.{IsValid}
use yeti_lnp_resolver.EventHandler.{Events, EpollOp, is_can_handle}
use yeti_lnp_resolver.Dispatcher.{
  Event, Handler, Wait, failed, interrupted, ready, dispatch, handle_events, round, loop,
  LoopTerminator, terminate, all_beside,
}
use yeti_lnp_resolver.HttpClient.Transfers.{HttpClient}
use yeti_lnp_resolver.HttpClient.State.{make_request}
use yeti_lnp_resolver.HttpClient.Asked.{asked}
use yeti_lnp_resolver.HttpClient.Tally.{in_progress, answered}
use yeti_lnp_resolver.HttpClient.System.{
  Incoming, datagram, client_event, receive, receive_all, IsAccepted, AllAccepted, KeepsId,
  start_request,
}
use yeti_lnp_resolver.HttpClient.Resolving.{receive_all-outstanding}
use yeti_lnp_resolver.Server.{
  Surroundings, Server, core_of, take_in, deliver, transport_event, handlers,
}

-- What each handler keeps, whether or not it stops the loop, the loop keeps.
module _ {S : Type 0} (I : S → Type 0) where
  abbrev Holds : Handler S → Type 0
  Holds h =
      (fd : ℤ) (ev : Events) (s : S) (stop : Bool) → I s → I (h.handle_event fd ev (s, stop)).0

  dispatch-holds :
      (e : Event) (hs : List (Handler S)) (s : S) (stop : Bool)
      → All Holds hs
      → I s
      → I (dispatch e hs (s, stop)).0
  unfolding dispatch
  dispatch-holds e [] s stop holds i = i
  dispatch-holds e (h ∷ hs) s stop holds i =
      elim (Bool-cases (is_can_handle e.fd e.events (h.events_of s))) [
        | inl able ↦ rw able (holds.0 e.fd e.events s stop i)
        | inr not_able ↦ rw not_able (dispatch-holds e hs s stop holds.1 i)
      ]

  handle_events-holds :
      (es : List Event) (hs : List (Handler S)) (w : S × Bool)
      → All Holds hs
      → I w.0
      → I (handle_events hs es w).0
  unfolding handle_events
  handle_events-holds [] hs w holds i = i
  handle_events-holds (e ∷ es) hs (s, true) holds i = i
  handle_events-holds (e ∷ es) hs (s, false) holds i =
      handle_events-holds es hs (dispatch e hs (s, false)) holds
        (dispatch-holds e hs s false holds i)

  round-holds :
      (x : Wait) (hs : List (Handler S)) (w : S × Bool) → All Holds hs → I w.0 → I (round hs x w).0
  unfolding round
  round-holds failed hs w holds i = i
  round-holds interrupted hs w holds i = i
  round-holds (ready es) hs w holds i = handle_events-holds es hs w holds i

  loop-holds :
      (xs : List Wait) (hs : List (Handler S)) (w : S × Bool)
      → All Holds hs
      → I w.0
      → I (loop hs xs w).0
  unfolding loop
  loop-holds [] hs w holds i = i
  loop-holds (x ∷ xs) hs (s, true) holds i = i
  loop-holds (x ∷ xs) hs (s, false) holds i =
      loop-holds xs hs (round hs x (s, false)) holds (round-holds x hs (s, false) holds i)

-- The terminator beside the handlers changes nothing of their state.
all_beside-Holds :
    (K : Type 0) {S : Type 0} (I : S → Type 0) (hs : List (Handler S))
    → All (Holds I) hs
    → All (Holds {S = S × LoopTerminator K} (λ w. I w.0)) (all_beside hs)
unfolding terminate
all_beside-Holds K I [] holds = (λ fd ev w stop i. i, tt)
all_beside-Holds K I (h ∷ hs) holds =
    (λ fd ev w stop i. holds.0 fd ev w.0 stop i, all_beside-Holds K I hs holds.1)

module _ {K : Type 0} (epoll_ctl : EpollOp → ℤ → K → ℤ × K) where
  receive_all-snoc :
      (ys : List Incoming) (x : Incoming) (w : HttpClient K × Resolver)
      → receive_all epoll_ctl (ys ++ (x ∷ [])) w ≡ receive epoll_ctl x (receive_all epoll_ctl ys w)
  receive_all-snoc [] x w = refl
  receive_all-snoc (y ∷ ys) x w = receive_all-snoc ys x (receive epoll_ctl y w)

  AllAccepted-snoc :
      (ys : List Incoming) (x : Incoming) (w : HttpClient K × Resolver)
      → AllAccepted epoll_ctl ys w
      → IsAccepted epoll_ctl x (receive_all epoll_ctl ys w)
      → AllAccepted epoll_ctl (ys ++ (x ∷ [])) w
  AllAccepted-snoc [] x w all last = (last, tt)
  AllAccepted-snoc (y ∷ ys) x w all last =
      (all.0, AllAccepted-snoc ys x (receive epoll_ctl y w) all.1 last)

  -- libcurl accepts every request, whenever it is made.
  abbrev pub Accepts : (ℕ → Surroundings) → Type 0
  Accepts at =
      (t : ℕ) (h : HttpRequest) (c : HttpClient K)
      → (make_request epoll_ctl (at t).callbacks (at t).curl h c).0 ≡ accepted

  module _ (at : ℕ → Surroundings) (accepts : Accepts at) (start : HttpClient K × Resolver) where
    -- The state is that after a sequence of datagrams and events, each accepted.
    abbrev pub Implements : Server K → Type 0
    Implements s =
        (ys : List Incoming) × AllAccepted epoll_ctl ys start
        × (core_of s ≡ receive_all epoll_ctl ys start)

    take_in-Implements :
        (x : Incoming) (s : Server K)
        → IsAccepted epoll_ctl x (core_of s)
        → Implements s
        → Implements (take_in epoll_ctl at x s)
    take_in-Implements x s last (ys, all, same) = (
      ys ++ (x ∷ []),
      AllAccepted-snoc ys x start all (subst (λ w. IsAccepted epoll_ctl x w) same last),
      ap (receive epoll_ctl x) same ∙ sym (receive_all-snoc ys x start),
    )

    pub start_request-accepted :
        (t : ℕ) (o : Option HttpRequest) (c : HttpClient K)
        → (start_request epoll_ctl (at t).callbacks (at t).curl o c).0 ≡ accepted
    start_request-accepted t none c = refl
    start_request-accepted t (some h) c = accepts t h c

    deliver-Implements :
        (o : Option RecvData) (s : Server K) → Implements s → Implements (deliver epoll_ctl at o s)
    deliver-Implements none s i = i
    deliver-Implements (some recv) s i =
        take_in-Implements
          (datagram (at s.events).now recv (at s.events).callbacks (at s.events).curl) s
          (start_request-accepted s.events (asked (at s.events).now recv s.resolver) s.client) i

    transport_event-Implements :
        (fd : ℤ) (s : Server K) (stop : Bool)
        → Implements s
        → Implements (transport_event epoll_ctl at fd (s, stop)).0
    transport_event-Implements (negsuc n) s stop i = i
    transport_event-Implements (pos fd) s stop i = deliver-Implements _ s i

    handlers-Implements : All (Holds Implements) (handlers epoll_ctl at)
    handlers-Implements = (
      λ fd ev s stop i.
          take_in-Implements
            (client_event (at s.events).now (at s.events).read (at s.events).multi fd ev) s tt i,
      (λ fd ev s stop i. transport_event-Implements fd s stop i, tt),
    )

    -- The loop implements a sequence of datagrams and events of the HTTP client: whatever epoll reports,
    -- the client and the resolver are then as after such a sequence.
    pub loop-Implements :
        (xs : List Wait) (s : Server K) (t : LoopTerminator K) (stop : Bool)
        → core_of s ≡ start
        → Implements (loop (all_beside (handlers epoll_ctl at)) xs ((s, t), stop)).0.0
    loop-Implements xs s t stop same =
        loop-holds (λ w. Implements w.0) xs (all_beside (handlers epoll_ctl at)) ((s, t), stop)
          (all_beside-Holds K Implements (handlers epoll_ctl at) handlers-Implements) ([], tt, same)

-- No request is stuck in the running program: the dispatcher's loop, whatever epoll, the sockets
-- and libcurl's transfers do, leaves each waiting request with a transfer in progress or a
-- response in the queue, if the loop starts with a valid resolver in which none waits and whose
-- drivers keep the request's id, and libcurl accepts every request.
pub loop-outstanding :
    {K : Type 0} (epoll_ctl : EpollOp → ℤ → K → ℤ × K) (at : ℕ → Surroundings) (xs : List Wait)
    (s : Server K) (t : LoopTerminator K) (n : ℕ) (r : ResolverRequest)
    → Accepts epoll_ctl at
    → IsValid s.resolver
    → All KeepsId s.resolver.drivers
    → s.resolver.waiting_requests ≡ []
    → lookup ◌==◌ n
        (loop (all_beside (handlers epoll_ctl at)) xs ((s, t), false)).0.0.resolver.waiting_requests
      ≡ some r
    → let last = (loop (all_beside (handlers epoll_ctl at)) xs ((s, t), false)).0.0 in
      1 ≤ in_progress n last.client.transfers + answered n last.client.response_queue
loop-outstanding epoll_ctl at xs s t n r accepts v k none_waits found =
    let last = (loop (all_beside (handlers epoll_ctl at)) xs ((s, t), false)).0.0 in
    let (ys, all, same) = loop-Implements epoll_ctl at accepts (core_of s) xs s t false refl in
    subst (λ w. 1 ≤ in_progress n w.0.transfers + answered n w.0.response_queue) (sym same)
      (receive_all-outstanding epoll_ctl ys s.client s.resolver n r v k none_waits all
        (sym (ap (λ w. lookup ◌==◌ n w.1.waiting_requests) same) ∙ found))
