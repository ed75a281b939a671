-- ===== src/HttpClient/Served.antt =====
-- What each step of the resolver does to the part that its waiting requests have in the HTTP
-- client.
use mathlib.Core.Path.{subst}
use yeti_lnp_resolver.Base.{
  ◌≡◌, refl, sym, ◌∙◌, inl, inr, ℕ, ◌+◌, ◌≤◌, Option, none, some, List, [], ◌∷◌, ◌==◌, ==_iff, eq_ℤ,
  eq_ℤ_iff, if◌then◌else◌, Bool-cases, All, arith,
}
use yeti_lnp_resolver.Base.Assoc.{lookup, lookup-All, lookup-emplace_other}
use yeti_lnp_resolver.Types.{ResolverRequest, ResolverError, HttpRequest, HttpResponse}
use yeti_lnp_resolver.Resolver.State.{
  Resolver, Driver, Action, finish, fetch, raise, on_http_response_received,
}
use yeti_lnp_resolver.Resolver.Invariant.{IsValid, on_http_response_received-IsValid}
use yeti_lnp_resolver.HttpClient.Core.{Core}
use yeti_lnp_resolver.HttpClient.Drain.{hand_all}
use yeti_lnp_resolver.HttpClient.Tally.{answered, outstanding}
use yeti_lnp_resolver.HttpClient.Asked.{
  asked_action, asked_with, asked_parsed, grown, respond-erase,
}
use yeti_lnp_resolver.HttpClient.System.{KeepsId}

-- Each waiting request has a transfer in progress or a response in the queue.
abbrev pub IsServed : Core → Resolver → Type 0
IsServed c s =
    IsValid s
    × All KeepsId s.drivers
    × ((n : ℕ) (r : ResolverRequest)
        → lookup ◌==◌ n s.waiting_requests ≡ some r
        → 1 ≤ outstanding n c)

-- Handing over a response takes away at most the wait it answers.
on_http_response_received-served :
    (now : ℕ) (transfers : ℕ → ℕ) (response : HttpResponse) (q : List HttpResponse) (s : Resolver)
    → IsValid s
    → ((n : ℕ) (r : ResolverRequest)
        → lookup ◌==◌ n s.waiting_requests ≡ some r
        → 1 ≤ transfers n + answered n (response ∷ q))
    → (n : ℕ) (r : ResolverRequest)
    → lookup ◌==◌ n (on_http_response_received now response s).waiting_requests ≡ some r
    → 1 ≤ transfers n + answered n q
unfolding on_http_response_received
on_http_response_received-served now transfers response q s v served n r h =
    let erased = respond-erase now response s (lookup ◌==◌ response.id s.waiting_requests) refl v in
    elim (Bool-cases (response.id == n)) [
      | inl same ↦ let here : response.id ≡ n = (==_iff response.id n).0 same in cc
      | inr differ ↦
          let before : 1 ≤ transfers n + ((if response.id == n then 1 else 0) + answered n q) =
            served n r (erased.2 n r h) in
          omega (arith, (rw differ at before))
    ]

pub hand_all-served :
    (now : ℕ) (transfers : ℕ → ℕ) (q : List HttpResponse) (s : Resolver)
    → IsValid s
    → All KeepsId s.drivers
    → ((n : ℕ) (r : ResolverRequest)
        → lookup ◌==◌ n s.waiting_requests ≡ some r
        → 1 ≤ transfers n + answered n q)
    → let t = hand_all (some (on_http_response_received now)) q s in
      IsValid t
      × All KeepsId t.drivers
      × ((n : ℕ) (r : ResolverRequest)
          → lookup ◌==◌ n t.waiting_requests ≡ some r
          → 1 ≤ transfers n + 0)
unfolding on_http_response_received
hand_all-served now transfers [] s v k served = (v, k, served)
hand_all-served now transfers (response ∷ q) s v k served =
    let erased = respond-erase now response s (lookup ◌==◌ response.id s.waiting_requests) refl v in
    hand_all-served now transfers q (on_http_response_received now response s)
      (on_http_response_received-IsValid now response s v)
      (subst (λ ds. All KeepsId ds) (sym erased.1) k)
      (on_http_response_received-served now transfers response q s v served)

-- The request that is made has the id of the request that is to wait.
asked_with-id :
    (r : ResolverRequest) (h : HttpRequest) (s : Resolver) (o : Option Driver)
    → ((d : Driver) → o ≡ some d → KeepsId (d.unique_id, d))
    → asked_with r o ≡ some h
    → h.id ≡ r.id
asked_with-id r h s none k e = cc
asked_with-id r h s (some d) k e = elim (Bool-cases (eq_ℤ d.driver_type r.type)) [
  | inl same ↦ asked_action-id (d.resolve r) refl (rw same at e)
  | inr differ ↦ cc (rw differ at e)
]
  where
    asked_action-id : (a : Action) → d.resolve r ≡ a → asked_action a ≡ some h → h.id ≡ r.id
    asked_action-id (fetch g) made found = k d refl r h (cc (made, found))
    asked_action-id (finish result) made found = cc
    asked_action-id (raise e) made found = cc

pub asked_parsed-id :
    (s : Resolver) (p : ResolverRequest × Option ResolverError) (h : HttpRequest)
    → All KeepsId s.drivers
    → asked_parsed s p ≡ some h
    → h.id ≡ p.0.id
asked_parsed-id s (r, some e) h k found = cc
asked_parsed-id s (r, none) h k found =
    asked_with-id r h s (lookup eq_ℤ r.db_id s.drivers)
      (λ d e. lookup-All eq_ℤ eq_ℤ_iff KeepsId r.db_id d s.drivers k e) found

-- Whether the request that is made has an id.
abbrev pub made_with : Option HttpRequest → ℕ → ℕ
made_with none n = 0
made_with (some h) n = if h.id == n then 1 else 0

pub grown-served :
    (o : Option HttpRequest) (r : ResolverRequest) (m : List (ℕ × ResolverRequest))
    (before after : ℕ → ℕ)
    → ((h : HttpRequest) → o ≡ some h → h.id ≡ r.id)
    → ((n : ℕ) → after n ≡ before n + made_with o n)
    → ((n : ℕ) (w : ResolverRequest) → lookup ◌==◌ n m ≡ some w → 1 ≤ before n)
    → (n : ℕ) (w : ResolverRequest) → lookup ◌==◌ n (grown o r m) ≡ some w
    → 1 ≤ after n
grown-served none r m before after id more served n w h = omega (arith, more n, served n w h)
grown-served (some g) r m before after id more served n w h = elim (Bool-cases (r.id == n)) [
  | inl here ↦ ground (arith, more n, id g refl)
  | inr differ ↦
      let there = served n w (sym (lookup-emplace_other ◌==◌ ==_iff r.id n r m differ) ∙ h) in
      ground (arith, more n)
]
