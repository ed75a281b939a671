-- ===== src/Resolver/Delivery.antt =====
-- The whole way of a tagged request that needs an HTTP transfer: the datagram, then the response.
use mathlib.Core.List.{append_assoc}
use yeti_lnp_resolver.Base.{
  ℕ, ◌-◌, ◌≡◌, sym, ap, inr, true, none, some, List, [], ◌∷◌, ◌++◌, Bytes, ◌==◌, ==_iff, pos, eq_ℤ,
  write_u32,
}
use yeti_lnp_resolver.Base.Assoc.{lookup, lookup-emplace_self, erase-emplace}
use yeti_lnp_resolver.Types.{RecvData, ResolverRequest, HttpResponse, SResult}
use yeti_lnp_resolver.Resolver.Reply.{provisional_reply, tagged_reply, reply_of}
use yeti_lnp_resolver.Resolver.State.{
  Resolver, Effect, send_data, count_increment, finished_increment, cache_sync, make_request,
  accepted, cache_entry_of, handle_request_is_done, send_reply, make_http_request, answer,
  after_make_request, on_data_received, parse_ended, parse_response_with, parse_response, respond,
  on_http_response_received,
}
use yeti_lnp_resolver.Resolver.Collisions.{NeedsTransfer, started, on_data_received-started}

module _ {now : ℕ} {recv : RecvData} {s : Resolver} (n : NeedsTransfer now recv s) where
  abbrev pub response_to : Bytes → HttpResponse
  response_to body = record { id = n.request.id; is_success = true; body = body }

  abbrev pub finished_request : SResult → ResolverRequest
  finished_request result = record n.request { is_done = true; result = result }

  -- What the resolver does for the request, in order.
  abbrev pub transcript : ℕ → SResult → List Effect
  transcript now' result =
      let r = finished_request result in
      send_data r.client_info (write_u32 r.id)
      ∷ count_increment n.driver.unique_id
      ∷ make_request n.http_request
      ∷ finished_increment n.driver.unique_id (now' - r.req_start)
      ∷ cache_sync (cache_entry_of n.driver r)
      ∷ send_data r.client_info (tagged_reply r)
      ∷ []

  tagged_driver : n.request.type ≡ pos 0 → eq_ℤ n.driver.driver_type (pos 0) ≡ true
  tagged_driver e = rw (sym e) n.typed

  started-waits :
      lookup ◌==◌ n.request.id s.waiting_requests ≡ none
      → lookup ◌==◌ n.request.id (started n).waiting_requests ≡ some n.request
  unfolding make_http_request
  started-waits e = lookup-emplace_self ◌==◌ ==_iff n.request.id n.request s.waiting_requests e

  -- For a tagged request that the driver wants an HTTP transfer for, whose id does not wait
  -- already, the datagram and then a successful response with its id, whose body the driver parses
  -- to `result`, leave the maps as they were and have these effects in order: the provisional
  -- reply, the request's counter, the transfer, the counter of finished requests, the cache entry
  -- and the tagged reply with the result.
  pub on_http_response_received-transcript :
      (now' : ℕ) (body : Bytes) (result : SResult)
      → lookup ◌==◌ n.request.id s.waiting_requests ≡ none
      → n.request.type ≡ pos 0
      → n.driver.parse body n.request ≡ inr result
      → on_http_response_received now' (response_to body) (on_data_received now accepted recv s)
        ≡ record s { effects = s.effects ++ transcript now' result }
  unfolding on_http_response_received respond parse_response parse_response_with parse_ended answer
      after_make_request make_http_request handle_request_is_done send_reply reply_of
      provisional_reply
  on_http_response_received-transcript now' body result fresh tagged parsed =
      rw
        (
          on_data_received-started n accepted,
          started-waits fresh,
          erase-emplace ◌==◌ ==_iff n.request.id n.request s.waiting_requests fresh,
          n.registered,
          n.typed,
          parsed,
          tagged_driver tagged,
          tagged,
        )
        (ap (λ es. record s { effects = es }) (simp append_assoc))
