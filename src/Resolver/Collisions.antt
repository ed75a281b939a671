-- ===== src/Resolver/Collisions.antt =====
-- Two requests with one id at a time, and an HTTP client that throws.
use yeti_lnp_resolver.Base.{
  ℕ, suc, ◌+◌, ◌≡◌, ◌∙◌, true, none, some, Bytes, arith, ◌==◌, eq_ℤ, length,
}
use yeti_lnp_resolver.Base.Assoc.{lookup, emplace_present, length-emplace}
use yeti_lnp_resolver.Types.{RecvData, ResolverRequest, new_request, HttpRequest}
use yeti_lnp_resolver.Resolver.Request.{parse}
use yeti_lnp_resolver.Resolver.Reply.{provisional_reply}
use yeti_lnp_resolver.Resolver.State.{
  Resolver, Driver, fetch, send_data, count_increment, failed_increment, make_request, HttpOutcome,
  accepted, refused, raised, emit, make_http_request, after_make_request, run_action, resolve_with,
  resolve, answer, on_parsed, on_data_received,
}
use yeti_lnp_resolver.Resolver.Answers.{DoesReturn}
use yeti_lnp_resolver.Resolver.Log.{
  finals, finals-snoc, answers, HasVersion, send_error_reply-answers,
}

-- The datagram is a request for this driver, which wants an HTTP transfer for it.
pub record NeedsTransfer (now : ℕ) (recv : RecvData) (s : Resolver) : Type 0 where
  pub request : ResolverRequest
  pub driver : Driver
  pub http_request : HttpRequest
  pub parsed : parse recv (new_request recv.client_info now) ≡ (request, none)
  pub versioned : HasVersion request
  pub registered : lookup eq_ℤ request.db_id s.drivers ≡ some driver
  pub typed : eq_ℤ driver.driver_type request.type ≡ true
  pub fetches : driver.resolve request ≡ fetch http_request

module _ {now : ℕ} {recv : RecvData} {s : Resolver} (n : NeedsTransfer now recv s) where
  abbrev pub started : Resolver
  started = make_http_request n.request n.http_request (
      emit (count_increment n.driver.unique_id)
        (emit (send_data n.request.client_info (provisional_reply n.request)) s))

  pub on_data_received-started :
      (http : HttpOutcome)
      → on_data_received now http recv s
        ≡ answer n.request (after_make_request n.driver http started)
  unfolding on_data_received on_parsed resolve resolve_with run_action
  on_data_received-started http = rw (n.parsed, n.registered, n.typed, n.fetches)

  started-finals : finals started.effects ≡ finals s.effects
  unfolding make_http_request provisional_reply
  started-finals = omega (
    arith,
    finals-snoc s.effects (send_data n.request.client_info (provisional_reply n.request)),
    finals-snoc _ (count_increment n.driver.unique_id),
    finals-snoc _ (make_request n.http_request),
  )

  started-waiting :
      (old : ResolverRequest)
      → lookup ◌==◌ n.request.id s.waiting_requests ≡ some old
      → started.waiting_requests ≡ s.waiting_requests
  unfolding make_http_request
  started-waiting old e = emplace_present ◌==◌ n.request.id n.request old s.waiting_requests e

  started-length :
      lookup ◌==◌ n.request.id s.waiting_requests ≡ none
      → length started.waiting_requests ≡ suc (length s.waiting_requests)
  unfolding make_http_request
  started-length e = length-emplace ◌==◌ n.request.id n.request s.waiting_requests e

  -- A request that needs a transfer while another with its id waits leaves the waiting requests as
  -- they were, and gets no final reply, if make_request does not throw.
  pub duplicate_lost :
      (http : HttpOutcome) (old : ResolverRequest)
      → DoesReturn http
      → lookup ◌==◌ n.request.id s.waiting_requests ≡ some old
      → ((on_data_received now http recv s).waiting_requests ≡ s.waiting_requests)
        × (finals (on_data_received now http recv s).effects ≡ finals s.effects)
  unfolding answer after_make_request
  duplicate_lost accepted old d e =
      rw (on_data_received-started accepted) (started-waiting old e, started-finals)
  duplicate_lost refused old d e =
      rw (on_data_received-started refused) (started-waiting old e, started-finals)
  duplicate_lost (raised what) old d e = absurd d

  -- If `make_request` throws for a request whose id does not wait already, the final replies sent
  -- and the requests that wait grow by two for this one request.
  raised_answers :
      (what : Bytes)
      → lookup ◌==◌ n.request.id s.waiting_requests ≡ none
      → answers (on_data_received now (raised what) recv s) ≡ answers s + 2
  unfolding answer after_make_request
  raised_answers what e = rw (on_data_received-started (raised what)) (
      send_error_reply-answers n.request _ _ n.versioned
      ∙ omega (
        arith,
        finals-snoc started.effects (failed_increment n.driver.unique_id),
        started-finals,
        started-length e,
      ))
