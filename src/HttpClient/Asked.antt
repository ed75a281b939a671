-- ===== src/HttpClient/Asked.antt =====
-- The HTTP request that a datagram leads to, and how both handlers of the resolver change the requests
-- that wait.
use yeti_lnp_resolver.Base.{
  ◌≡◌, refl, sym, ap, ◌∙◌, inl, inr, ℕ, true, not, Option, none, some, List, ◌==◌, ==_iff, eq_ℤ,
  if◌then◌else◌, Bool-cases,
}
use yeti_lnp_resolver.Base.Assoc.{lookup, erase, emplace, lookup-erase_self, lookup-erase_other}
use yeti_lnp_resolver.Types.{
  RecvData, ResolverRequest, new_request, ResolverError, HttpRequest, HttpResponse,
}
use yeti_lnp_resolver.Resolver.Request.{parse}
use yeti_lnp_resolver.Resolver.State.{
  Resolver, Driver, Action, finish, fetch, raise, HttpOutcome, accepted, refused, raised,
  run_action, after_make_request, make_http_request, resolve_with, resolve, on_parsed, respond,
  parse_response, parse_response_with,
}
use yeti_lnp_resolver.Resolver.Invariant.{
  IsValid, answer-SameMaps, parse_response_with-SameMaps, handle_request_is_done-SameMaps,
}

-- The HTTP request that `on_data_received` hands to the client, if it comes that far.
abbrev pub asked_action : Action → Option HttpRequest
asked_action (fetch h) = some h
asked_action _ = none

abbrev pub asked_with : ResolverRequest → Option Driver → Option HttpRequest
asked_with r none = none
asked_with r (some d) = if not (eq_ℤ d.driver_type r.type) then none else asked_action (d.resolve r)

abbrev pub asked_parsed : Resolver → ResolverRequest × Option ResolverError → Option HttpRequest
asked_parsed s (r, some e) = none
asked_parsed s (r, none) = asked_with r (lookup eq_ℤ r.db_id s.drivers)

unfoldable pub asked : ℕ → RecvData → Resolver → Option HttpRequest
asked now recv s = asked_parsed s (parse recv (new_request recv.client_info now))

-- The requests that wait once a request was made, or none.
abbrev pub grown :
    Option HttpRequest → ResolverRequest → List (ℕ × ResolverRequest) → List (ℕ × ResolverRequest)
grown none r m = m
grown (some h) r m = emplace ◌==◌ r.id r m

-- Nothing else changes in the resolver's maps.
abbrev pub Grows : Option HttpRequest → ResolverRequest → Resolver → Resolver → Type 0
Grows o r s t = (t.waiting_requests ≡ grown o r s.waiting_requests) × (t.drivers ≡ s.drivers)

run_action-Grows :
    (now : ℕ) (http : HttpOutcome) (d : Driver) (r : ResolverRequest) (a : Action) (s : Resolver)
    → Grows (asked_action a) r s (run_action now http d r a s).0
unfolding run_action after_make_request make_http_request
run_action-Grows now http d r (finish result) s =
    handle_request_is_done-SameMaps now (record r { is_done = true; result = result }) d s
run_action-Grows now accepted d r (fetch h) s = (refl, refl)
run_action-Grows now refused d r (fetch h) s = (refl, refl)
run_action-Grows now (raised what) d r (fetch h) s = (refl, refl)
run_action-Grows now http d r (raise e) s = (refl, refl)

resolve_with-Grows :
    (now : ℕ) (http : HttpOutcome) (r : ResolverRequest) (s : Resolver) (d : Option Driver)
    → Grows (asked_with r d) r s (resolve_with now http r s d).0
unfolding resolve_with
resolve_with-Grows now http r s none = (refl, refl)
resolve_with-Grows now http r s (some d) = elim (Bool-cases (eq_ℤ d.driver_type r.type)) [
  | inl same ↦ rw same (run_action-Grows now http d r (d.resolve r) _)
  | inr differ ↦ rw differ (refl, refl)
]

pub on_parsed-Grows :
    (now : ℕ) (http : HttpOutcome) (s : Resolver) (p : ResolverRequest × Option ResolverError)
    → Grows (asked_parsed s p) p.0 s (on_parsed now http s p)
unfolding on_parsed resolve
on_parsed-Grows now http s (r, some e) = answer-SameMaps r (s, some e)
on_parsed-Grows now http s (r, none) =
    let same = answer-SameMaps r _ in
    let grows = resolve_with-Grows now http r _ (lookup eq_ℤ r.db_id s.drivers) in
    (same.0 ∙ grows.0, same.1 ∙ grows.1)

-- A response takes the request with its id out, whether or not there is one.
pub respond-erase :
    (now : ℕ) (response : HttpResponse) (s : Resolver) (o : Option ResolverRequest)
    → lookup ◌==◌ response.id s.waiting_requests ≡ o
    → IsValid s
    → let t = respond now response s o in
      (lookup ◌==◌ response.id t.waiting_requests ≡ none)
      × (t.drivers ≡ s.drivers)
      × ((n : ℕ) (r : ResolverRequest)
          → lookup ◌==◌ n t.waiting_requests ≡ some r
          → lookup ◌==◌ n s.waiting_requests ≡ some r)
unfolding respond parse_response
respond-erase now response s none e v = (e, refl, λ n r h. h)
respond-erase now response s (some r) e v =
    let left = record s { waiting_requests = erase ◌==◌ response.id s.waiting_requests } in
    let d = lookup eq_ℤ r.db_id left.drivers in
    let same = answer-SameMaps r (parse_response_with now response r left d) in
    let kept = parse_response_with-SameMaps now response r left d in
    let gone = lookup-erase_self ◌==◌ ==_iff response.id s.waiting_requests v.unique in
    (
      ap (lookup ◌==◌ response.id) (same.0 ∙ kept.0) ∙ gone,
      same.1 ∙ kept.1,
      λ n w h. still n w (sym (ap (lookup ◌==◌ n) (same.0 ∙ kept.0)) ∙ h) gone,
    )
  where
    still :
        (n : ℕ) (w : ResolverRequest)
        → lookup ◌==◌ n (erase ◌==◌ response.id s.waiting_requests) ≡ some w
        → lookup ◌==◌ response.id (erase ◌==◌ response.id s.waiting_requests) ≡ none
        → lookup ◌==◌ n s.waiting_requests ≡ some w
    still n w h gone = elim (Bool-cases (response.id == n)) [
      | inl same ↦ let here : response.id ≡ n = (==_iff response.id n).0 same in cc
      | inr differ ↦
          sym (lookup-erase_other ◌==◌ ==_iff response.id n s.waiting_requests differ) ∙ h
    ]
