-- ===== src/Server/Serving.antt =====
-- A datagram on its way from a socket, through the dispatcher and the transport, to the answer.
use mathlib.Core.Path.{subst}
use yeti_lnp_resolver.Base.{
  ◌≡◌, refl, sym, ap, ◌∙◌, ℕ, suc, ◌-◌, ◌≤◌, Bool, true, false, [], ◌∷◌, ◌++◌, Bytes, ℤ, pos,
  length, read_u32, arith,
}
use yeti_lnp_resolver.Resolver.State.{HttpOutcome, accepted, on_data_received}
use yeti_lnp_resolver.Resolver.Log.{answers}
use yeti_lnp_resolver.Resolver.Parsing.{received}
use yeti_lnp_resolver.Resolver.Answers.{IsFresh, DoesReturn, on_data_received-answers}
use yeti_lnp_resolver.Resolver.Addressing.{Extends, on_data_received-Extends}
use yeti_lnp_resolver.Transport.{datagram, zeros}
use yeti_lnp_resolver.Transport as Transport
use yeti_lnp_resolver.Transport.Receive.{sender, handle_event-received}
use yeti_lnp_resolver.EventHandler.{EpollOp, is_can_handle}
use yeti_lnp_resolver.Dispatcher.{Event, dispatch}
use yeti_lnp_resolver.HttpClient.System as System
use yeti_lnp_resolver.HttpClient.Asked.{asked}
use yeti_lnp_resolver.Server.{
  Surroundings, Server, core_of, take_in, deliver, transport_event, handlers,
}
use yeti_lnp_resolver.Server.Refinement.{Accepts, start_request-accepted}

read_u32-append :
    (bytes rest : Bytes) → 4 ≤ length bytes → read_u32 (bytes ++ rest) 0 ≡ read_u32 bytes 0
read_u32-append [] rest h = absurd (omega arith)
read_u32-append (a ∷ []) rest h = absurd (omega arith)
read_u32-append (a ∷ b ∷ []) rest h = absurd (omega arith)
read_u32-append (a ∷ b ∷ c ∷ []) rest h = absurd (omega arith)
read_u32-append (a ∷ b ∷ c ∷ d ∷ bytes) rest h = refl

module _ {K : Type 0} (epoll_ctl : EpollOp → ℤ → K → ℤ × K) (at : ℕ → Surroundings) where
  -- The dispatcher gives the event to the transport, and the transport the datagram to the resolver.
  dispatch-take_in :
      (e : Event) (fd : ℕ) (bytes : Bytes) (addr : ℕ × ℕ) (addr_size : ℕ) (s : Server K)
      → e.fd ≡ pos fd
      → (at s.events).received ≡ datagram bytes addr addr_size
      → length bytes ≤ 2048
      → is_can_handle e.fd e.events s.client.base.events_map ≡ false
      → is_can_handle e.fd e.events s.sockets ≡ true
      → dispatch e (handlers epoll_ctl at) (s, false) ≡ (
        take_in epoll_ctl at
            (System.datagram
              (at s.events).now
              (received (sender fd addr addr_size) bytes (zeros (2048 - length bytes)))
              (at s.events).callbacks
              (at s.events).curl)
            s,
        false,
      )
  unfolding dispatch
  dispatch-take_in e fd bytes addr addr_size s same arrived fits declined able =
      rw (declined, able)
        (ap (λ i. transport_event epoll_ctl at i (s, false)) same
          ∙ ap (λ r. handed (Transport.handle_event fd r false)) arrived
          ∙ ap handed (handle_event-received fd bytes addr addr_size false fits))
    where
      handed : Transport.Handled → Server K × Bool
      handed h = (deliver epoll_ctl at h.delivered s, h.stop)

  DoesReturn-accepted : (http : HttpOutcome) → http ≡ accepted → DoesReturn http
  DoesReturn-accepted http e = subst DoesReturn (sym e) tt

  -- A datagram of 6 to 2048 bytes that epoll reports on a socket of the transport, and the HTTP
  -- client does not take, is answered by one final reply or makes one request more wait, if no
  -- request with its id waits and libcurl accepts every request; all that is sent for it goes to
  -- its sender, through the socket it came on, and begins with its id. The loop goes on.
  pub dispatch-answers :
      (e : Event) (fd : ℕ) (bytes : Bytes) (addr : ℕ × ℕ) (addr_size : ℕ) (s : Server K)
      → Accepts epoll_ctl at
      → e.fd ≡ pos fd
      → (at s.events).received ≡ datagram bytes addr addr_size
      → 6 ≤ length bytes
      → length bytes ≤ 2048
      → is_can_handle e.fd e.events s.client.base.events_map ≡ false
      → is_can_handle e.fd e.events s.sockets ≡ true
      → IsFresh (read_u32 bytes 0) s.resolver
      → let w = dispatch e (handlers epoll_ctl at) (s, false) in
        (answers w.0.resolver ≡ suc (answers s.resolver))
        × Extends (sender fd addr addr_size) (read_u32 bytes 0) s.resolver w.0.resolver
        × (w.1 ≡ false)
  dispatch-answers e fd bytes addr addr_size s accepts same arrived large fits declined able fresh =
      let rest = zeros (2048 - length bytes) in
      let recv = received (sender fd addr addr_size) bytes rest in
      let taken = dispatch-take_in e fd bytes addr addr_size s same arrived fits declined able in
      let now = (at s.events).now in
      let out =
        (System.start_request epoll_ctl (at s.events).callbacks (at s.events).curl
          (asked now recv s.resolver) s.client).0 in
      let ok : out ≡ accepted =
        start_request-accepted epoll_ctl at accepts (core_of s) s.events (asked now recv s.resolver)
          s.client in
      let id = read_u32-append bytes rest (omega arith) in
      rw taken (
        on_data_received-answers now out recv s.resolver large
            (subst (λ i. IsFresh i s.resolver) (sym id) fresh) (DoesReturn-accepted out ok),
        subst
            (λ i.
              Extends (sender fd addr addr_size) i s.resolver
                (on_data_received now out recv s.resolver))
            id (on_data_received-Extends now out recv s.resolver large),
        refl,
      )
