-- ===== src/HttpClient/System.antt =====
-- The resolver and its HTTP client together: a datagram may start a transfer, and the responses of
-- the transfers that are done go to `Resolver::on_http_response_received`.
use yeti_lnp_resolver.Base.{◌≡◌, ℕ, Option, none, some, List, [], ◌∷◌, ℤ}
use yeti_lnp_resolver.Types.{RecvData, ResolverRequest, HttpRequest}
use yeti_lnp_resolver.Resolver.State.{
  Resolver, Driver, fetch, HttpOutcome, accepted, on_data_received, on_http_response_received,
}
use yeti_lnp_resolver.EventHandler.{Events, EpollOp}
use yeti_lnp_resolver.HttpClient.Setup.{Curl}
use yeti_lnp_resolver.HttpClient.Timer.{TimerRead}
use yeti_lnp_resolver.HttpClient.Transfers.{HttpClient, Callback}
use yeti_lnp_resolver.HttpClient.State.{make_request, Multi, handle_event}
use yeti_lnp_resolver.HttpClient.Asked.{asked}

-- A datagram, with libcurl's part in it, or an event of the client's descriptors.
pub data Incoming : Type 0 where
  datagram : ℕ → RecvData → List Callback → Curl → Incoming
  client_event : ℕ → TimerRead → Multi → ℤ → Events → Incoming

-- A driver puts the request's id into its HTTP request.
abbrev pub KeepsId : ℤ × Driver → Type 0
KeepsId (id, d) = (r : ResolverRequest) (h : HttpRequest) → d.resolve r ≡ fetch h → h.id ≡ r.id

module _ {K : Type 0} (epoll_ctl : EpollOp → ℤ → K → ℤ × K) where
  abbrev pub start_request :
      List Callback → Curl → Option HttpRequest → HttpClient K → HttpOutcome × HttpClient K
  start_request xs curl none c = (accepted, c)
  start_request xs curl (some h) c = make_request epoll_ctl xs curl h c

  abbrev pub receive : Incoming → HttpClient K × Resolver → HttpClient K × Resolver
  receive (datagram now recv xs curl) (c, s) =
      let made = start_request xs curl (asked now recv s) c in
      (made.1, on_data_received now made.0 recv s)
  receive (client_event now read multi fd ev) w =
      handle_event epoll_ctl (some (on_http_response_received now)) read multi fd ev w

  abbrev pub receive_all : List Incoming → HttpClient K × Resolver → HttpClient K × Resolver
  receive_all [] w = w
  receive_all (x ∷ xs) w = receive_all xs (receive x w)

  -- The client accepts the HTTP request of a datagram, if it has one.
  abbrev pub IsAccepted : Incoming → HttpClient K × Resolver → Type 0
  IsAccepted (datagram now recv xs curl) (c, s) =
      (start_request xs curl (asked now recv s) c).0 ≡ accepted
  IsAccepted (client_event now read multi fd ev) w = Unit

  abbrev pub AllAccepted : List Incoming → HttpClient K × Resolver → Type 0
  AllAccepted [] w = Unit
  AllAccepted (x ∷ xs) w = IsAccepted x w × AllAccepted xs (receive x w)
