-- ===== src/Statistics/Balance.antt =====
-- The metrics of a driver, request by request: what is counted is settled or still waits.
use yeti_lnp_resolver.Base.{
  ℕ, ◌+◌, ◌≡◌, ◌≤◌, refl, sym, ◌∙◌, inl, inr, true, Option, none, some, List, ◌==◌, ℤ, eq_ℤ, All,
  Bool-cases, arith, read_u32, c_str,
}
use mathlib.Core.Path.{subst}
use yeti_lnp_resolver.Base.Assoc.{lookup, erase, emplace-All, erase-All}
use yeti_lnp_resolver.Base.Counting.{count-erase}
use yeti_lnp_resolver.Types.{RecvData, ResolverRequest, ResolverError, HttpRequest, HttpResponse}
use yeti_lnp_resolver.Resolver.Request.{parse}
use yeti_lnp_resolver.Resolver.Reply.{provisional_reply}
use yeti_lnp_resolver.Resolver.State.{
  Resolver, Driver, send_data, count_increment, HttpOutcome, emit, resolve_with, resolve, on_parsed,
  parse_response_with, parse_response, respond, resolving_error,
}
use yeti_lnp_resolver.Resolver.Answers.{IsFresh, DoesReturn}
use yeti_lnp_resolver.Resolver.Invariant.{answer-SameMaps, parse_response_with-SameMaps}
use yeti_lnp_resolver.HttpClient.Asked.{asked_with, asked_parsed, grown}
use yeti_lnp_resolver.Statistics.Ledger.{
  Moves, emit-Moves, run_action-Moves, parse_ended-Moves, fail_with-Moves, answer-Moves, counted,
  accounted, one_if_same,
}

-- What is counted and what is accounted for keep their distance.
abbrev pub Keeps : ℤ → Resolver → Resolver → Type 0
Keeps i s t = counted i t + accounted i s ≡ accounted i t + counted i s

resolve_with-Keeps :
    (i : ℤ) (now : ℕ) (http : HttpOutcome) (r : ResolverRequest) (s : Resolver) (o : Option Driver)
    → ((d : Driver) → o ≡ some d → d.unique_id ≡ r.db_id)
    → IsFresh r.id s
    → DoesReturn http
    → Keeps i s (resolve_with now http r s o).0
unfolding resolve_with
resolve_with-Keeps i now http r s none keyed fresh ok = omega arith
resolve_with-Keeps i now http r s (some d) keyed fresh ok =
    elim (Bool-cases (eq_ℤ d.driver_type r.type)) [
      | inl same ↦
          let counts = emit-Moves i (count_increment d.unique_id) s in
          let opened = emit (count_increment d.unique_id) s in
          let acts = run_action-Moves i now http d r (d.resolve r) opened (keyed d refl) fresh ok in
          rw same (omega (arith, counts.0, counts.1, acts.0, acts.1))
      | inr differ ↦ rw differ (omega arith)
    ]

pub on_parsed-Keeps :
    (i : ℤ) (now : ℕ) (http : HttpOutcome) (s : Resolver) (r : ResolverRequest)
    (e : Option ResolverError)
    → ((d : Driver) → lookup eq_ℤ r.db_id s.drivers ≡ some d → d.unique_id ≡ r.db_id)
    → (e ≡ none → IsFresh r.id s)
    → DoesReturn http
    → Keeps i s (on_parsed now http s (r, e))
unfolding on_parsed resolve
on_parsed-Keeps i now http s r (some e) keyed fresh ok =
    let said = answer-Moves i r (s, some e) in omega (arith, said.0, said.1)
on_parsed-Keeps i now http s r none keyed fresh ok =
    let provisional = send_data r.client_info (provisional_reply r) in
    let greeted = emit provisional s in
    let ended = resolve_with now http r greeted (lookup eq_ℤ r.db_id s.drivers) in
    let sent = emit-Moves i provisional s in
    let resolved =
      resolve_with-Keeps i now http r greeted (lookup eq_ℤ r.db_id s.drivers) keyed (fresh refl)
        ok in
    let said = answer-Moves i r ended in omega (arith, sent.0, sent.1, resolved, said.0, said.1)

-- The driver of a waiting request is there, and resolves its type.
abbrev pub Knows : Option Driver → ResolverRequest → Type 0
Knows none r = ⊥
Knows (some d) r = eq_ℤ d.driver_type r.type ≡ true

abbrev pub IsKnown : List (ℤ × Driver) → ℕ × ResolverRequest → Type 0
IsKnown drivers (id, r) = Knows (lookup eq_ℤ r.db_id drivers) r

parse_response_with-Moves :
    (i : ℤ) (now : ℕ) (response : HttpResponse) (r : ResolverRequest) (s : Resolver)
    (o : Option Driver)
    → ((d : Driver) → o ≡ some d → d.unique_id ≡ r.db_id)
    → Knows o r
    → Moves i 0 (one_if_same r.db_id i) s (parse_response_with now response r s o).0
unfolding parse_response_with
parse_response_with-Moves i now response r s none keyed known = absurd known
parse_response_with-Moves i now response r s (some d) keyed known =
    subst (λ j. Moves i 0 (one_if_same j i) s (parse_response_with now response r s (some d)).0)
      (keyed d refl)
      (elim (Bool-cases response.is_success) [
        | inl success ↦
            rw (known, success) (parse_ended-Moves i now d r s (d.parse response.body r))
        | inr failure ↦
            rw (known, failure) (fail_with-Moves i d (resolving_error (c_str response.body)) s)
      ])

pub respond-Keeps :
    (i : ℤ) (now : ℕ) (response : HttpResponse) (s : Resolver) (o : Option ResolverRequest)
    → lookup ◌==◌ response.id s.waiting_requests ≡ o
    → ((r : ResolverRequest) (d : Driver)
        → lookup eq_ℤ r.db_id s.drivers ≡ some d
        → d.unique_id ≡ r.db_id)
    → ((r : ResolverRequest) → o ≡ some r → IsKnown s.drivers (response.id, r))
    → Keeps i s (respond now response s o)
unfolding respond parse_response
respond-Keeps i now response s none e keyed known = omega arith
respond-Keeps i now response s (some r) e keyed known =
    let left : Resolver = record s {
      waiting_requests = erase ◌==◌ response.id s.waiting_requests;
    } in
    let ended = parse_response_with now response r left (lookup eq_ℤ r.db_id s.drivers) in
    let erased = count-erase ◌==◌ (λ w. eq_ℤ w.db_id i) response.id r s.waiting_requests e in
    let settled =
      parse_response_with-Moves i now response r left (lookup eq_ℤ r.db_id s.drivers)
        (λ d found. keyed r d found) (known r refl) in
    let said = answer-Moves i r ended in omega (arith, erased, settled.0, settled.1, said.0, said.1)

asked_with-Knows :
    (r : ResolverRequest) (o : Option Driver) (h : HttpRequest)
    → asked_with r o ≡ some h
    → Knows o r
asked_with-Knows r none h e = cc
asked_with-Knows r (some d) h e = elim (Bool-cases (eq_ℤ d.driver_type r.type)) [
  | inl same ↦ same
  | inr differ ↦ cc (rw differ at e)
]

pub asked_parsed-IsKnown :
    (s : Resolver) (p : ResolverRequest × Option ResolverError) (h : HttpRequest)
    → asked_parsed s p ≡ some h
    → IsKnown s.drivers (p.0.id, p.0)
asked_parsed-IsKnown s (r, some e) h asked = cc
asked_parsed-IsKnown s (r, none) h asked =
    asked_with-Knows r (lookup eq_ℤ r.db_id s.drivers) h asked

pub grown-All :
    (P : ℕ × ResolverRequest → Type 0) (o : Option HttpRequest) (r : ResolverRequest)
    (m : List (ℕ × ResolverRequest))
    → ((h : HttpRequest) → o ≡ some h → P (r.id, r))
    → All P m
    → All P (grown o r m)
grown-All P none r m new old = old
grown-All P (some h) r m new old = emplace-All ◌==◌ P r.id r m (new h refl) old

pub respond-All :
    (P : ℕ × ResolverRequest → Type 0) (now : ℕ) (response : HttpResponse) (s : Resolver)
    (o : Option ResolverRequest)
    → All P s.waiting_requests
    → All P (respond now response s o).waiting_requests
      × ((respond now response s o).drivers ≡ s.drivers)
unfolding respond parse_response
respond-All P now response s none old = (old, refl)
respond-All P now response s (some r) old =
    let left : Resolver = record s {
      waiting_requests = erase ◌==◌ response.id s.waiting_requests;
    } in
    let ended = parse_response_with now response r left (lookup eq_ℤ r.db_id s.drivers) in
    let said = answer-SameMaps r ended in
    let kept = parse_response_with-SameMaps now response r left (lookup eq_ℤ r.db_id s.drivers) in
    (
      subst (λ m. All P m) (sym (said.0 ∙ kept.0))
          (erase-All ◌==◌ P response.id s.waiting_requests old),
      said.1 ∙ kept.1,
    )

pub parse_fresh :
    (recv : RecvData) (r : ResolverRequest)
    → (parse recv r).1 ≡ none
    → (6 ≤ recv.length) × ((parse recv r).0.id ≡ read_u32 recv.buffer 0)
unfolding parse
parse_fresh recv r e = ground arith
