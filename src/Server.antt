-- ===== src/Server.antt =====
-- The running program: the dispatcher's loop of src/dispatcher/Dispatcher.cpp over the two handlers that
-- `main` leaves registered, the HTTP client of the resolver and the transport, in this order, before
-- the terminator. What the system calls and libcurl give at an event is a function of the number of
-- events before it.
pub mod Refinement
pub mod Serving
use yeti_lnp_resolver.Base.{ℕ, suc, Bool, false, Option, none, some, List, [], ◌∷◌, ℤ, pos, negsuc}
use yeti_lnp_resolver.Types.{RecvData}
use yeti_lnp_resolver.Resolver.State.{Resolver}
use yeti_lnp_resolver.Transport.{Received, Handled}
use yeti_lnp_resolver.Transport as Transport
use yeti_lnp_resolver.EventHandler.{Events, EpollOp}
use yeti_lnp_resolver.Dispatcher.{Handler}
use yeti_lnp_resolver.HttpClient.Setup.{Curl}
use yeti_lnp_resolver.HttpClient.Timer.{TimerRead}
use yeti_lnp_resolver.HttpClient.Transfers.{HttpClient, Callback}
use yeti_lnp_resolver.HttpClient.State.{Multi}
use yeti_lnp_resolver.HttpClient.System.{Incoming, datagram, client_event, receive}

-- The clock, `recvfrom`, libcurl while a request is made, `read` of the timer, and libcurl on an event.
pub record Surroundings : Type 0 where
  pub now : ℕ
  pub received : Received
  pub callbacks : List Callback
  pub curl : Curl
  pub read : TimerRead
  pub multi : Multi

-- The handlers of the dispatcher: `sockets` is the `events_map` of the transport, `client` and
-- `resolver` are the HTTP client and its owner; `events` counts the events that were handled.
pub record Server (K : Type 0) : Type 0 where
  pub sockets : List (ℤ × Events)
  pub client : HttpClient K
  pub resolver : Resolver
  pub events : ℕ

module _ {K : Type 0} where
  -- The state of the client and the resolver.
  abbrev pub core_of : Server K → HttpClient K × Resolver
  core_of s = (s.client, s.resolver)

module _ {K : Type 0} (epoll_ctl : EpollOp → ℤ → K → ℤ × K) (at : ℕ → Surroundings) where
  abbrev pub take_in : Incoming → Server K → Server K
  take_in x s =
      let w = receive epoll_ctl x (core_of s) in
      record s { client = w.0; resolver = w.1; events = suc s.events }

  -- What the transport hands to the resolver, if anything.
  abbrev pub deliver : Option RecvData → Server K → Server K
  deliver none s = record s { events = suc s.events }
  deliver (some recv) s =
      take_in (datagram (at s.events).now recv (at s.events).callbacks (at s.events).curl) s

  -- No socket has a negative descriptor.
  abbrev pub transport_event : ℤ → Server K × Bool → Server K × Bool
  transport_event (negsuc n) w = w
  transport_event (pos fd) (s, stop) =
      let h = Transport.handle_event fd (at s.events).received stop in
      (deliver h.delivered s, h.stop)

  abbrev pub transport_handler : Handler (Server K)
  transport_handler = record {
    events_of = (λ s. s.sockets);
    handle_event = (λ fd ev w. transport_event fd w);
  }

  abbrev pub client_handler : Handler (Server K)
  client_handler = record {
    events_of = (λ s. s.client.base.events_map);
    handle_event = (λ fd ev w. (
      take_in (client_event (at w.0.events).now (at w.0.events).read (at w.0.events).multi fd ev)
          w.0,
      w.1,
    ));
  }

  abbrev pub handlers : List (Handler (Server K))
  handlers = client_handler ∷ transport_handler ∷ []
