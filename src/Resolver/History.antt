-- ===== src/Resolver/History.antt =====
-- Histories of the resolver: datagrams, HTTP responses and reloads in any order.
use yeti_lnp_resolver.Base.{
  ℕ, ◌+◌, ◌≤◌, ◌<◌, ◌≡◌, refl, ap, Option, none, some, List, [], ◌∷◌, sym, ◌∙◌, eq_ℤ, arith, ◌==◌,
  ==_iff, length, read_u32, Option-cases, inl, inr,
}
use yeti_lnp_resolver.Base.Assoc.{lookup, erase, lookup-All, length-erase, erase_absent}
use yeti_lnp_resolver.Types.{RecvData, HttpResponse, ResolverRequest}
use yeti_lnp_resolver.Resolver.State.{
  Resolver, Driver, HttpOutcome, on_data_received, on_http_response_received, configure, respond,
  parse_response, parse_response_with,
}
use yeti_lnp_resolver.Resolver.Log.{finals, answers}
use yeti_lnp_resolver.Resolver.Answers.{
  IsFresh, DoesReturn, FoundHasVersion, respond-answers, on_data_received-answers,
  on_data_received_small,
}
use yeti_lnp_resolver.Resolver.Invariant.{
  IsValid, IsWaiting, on_data_received-IsValid, on_http_response_received-IsValid,
  configure-IsValid, answer-SameMaps, parse_response_with-SameMaps,
}

-- `Resolver::Resolver`: no driver, no request, nothing done yet.
unfoldable pub initial : Resolver
initial = record { drivers = []; waiting_requests = []; effects = [] }

pub initial-IsValid : IsValid initial
unfolding initial
initial-IsValid = record { unique = tt; waiting = tt; drivers_unique = tt; drivers_keyed = tt }

FoundHasVersion-lookup :
    (id : ℕ) (s : Resolver) → IsValid s → FoundHasVersion (lookup ◌==◌ id s.waiting_requests)
FoundHasVersion-lookup id s v = elim (Option-cases (lookup ◌==◌ id s.waiting_requests)) [
  | inl e ↦ rw e tt
  | inr (r, e) ↦ rw e (lookup-All ◌==◌ ==_iff IsWaiting id r s.waiting_requests v.waiting e).1
]

-- An HTTP response leaves the number of final replies sent and requests waiting as it was.
on_http_response_received-answers :
    (now : ℕ) (response : HttpResponse) (s : Resolver)
    → IsValid s
    → answers (on_http_response_received now response s) ≡ answers s
unfolding on_http_response_received
on_http_response_received-answers now response s v =
    respond-answers now response s _ refl (FoundHasVersion-lookup response.id s v)

-- How many final replies a response is due: one if a request waits under its id.
abbrev pub due : Option ResolverRequest → ℕ
due none = 0
due (some r) = 1

respond-waiting :
    (now : ℕ) (response : HttpResponse) (s : Resolver) (o : Option ResolverRequest)
    → lookup ◌==◌ response.id s.waiting_requests ≡ o
    → (length (respond now response s o).waiting_requests + due o ≡ length s.waiting_requests)
      × ((respond now response s o).waiting_requests ≡ erase ◌==◌ response.id s.waiting_requests)
unfolding respond parse_response
respond-waiting now response s none e = (omega arith, sym (erase_absent ◌==◌ response.id _ e))
respond-waiting now response s (some r) e =
    let left : Resolver = record s {
      waiting_requests = erase ◌==◌ response.id s.waiting_requests;
    } in
    let d = lookup eq_ℤ r.db_id left.drivers in
    let same = answer-SameMaps r (parse_response_with now response r left d) in
    let kept = parse_response_with-SameMaps now response r left d in
    let erased = same.0 ∙ kept.0 in
    (omega (arith, ap length erased, length-erase ◌==◌ response.id r s.waiting_requests e), erased)

-- In a valid state an HTTP response sends exactly one final reply if a request waits under its id,
-- and none otherwise; and it takes that request, and no other, out of the waiting ones.
pub on_http_response_received-finals :
    (now : ℕ) (response : HttpResponse) (s : Resolver)
    → IsValid s
    → let t = on_http_response_received now response s in
      (finals t.effects ≡ finals s.effects + due (lookup ◌==◌ response.id s.waiting_requests))
      × (t.waiting_requests ≡ erase ◌==◌ response.id s.waiting_requests)
unfolding on_http_response_received
on_http_response_received-finals now response s v =
    let o = lookup ◌==◌ response.id s.waiting_requests in
    let total = respond-answers now response s o refl (FoundHasVersion-lookup response.id s v) in
    let left = respond-waiting now response s o refl in (omega (arith, total, left.0), left.1)

-- A step, with the number of requests that it brings: a datagram with a header whose id does not
-- wait already, one without, a response, or a reload of the drivers.
pub data Step : Resolver → ℕ → Resolver → Type 0 where
  request :
      {s : Resolver} {n : ℕ} (now : ℕ) (http : HttpOutcome) (recv : RecvData)
      → n ≡ 1
      → 6 ≤ recv.length
      → IsFresh (read_u32 recv.buffer 0) s
      → DoesReturn http
      → Step s n (on_data_received now http recv s)
  noise :
      {s : Resolver} {n : ℕ} (now : ℕ) (http : HttpOutcome) (recv : RecvData)
      → n ≡ 0
      → recv.length < 6
      → Step s n (on_data_received now http recv s)
  response :
      {s : Resolver} {n : ℕ} (now : ℕ) (http_response : HttpResponse)
      → n ≡ 0
      → Step s n (on_http_response_received now http_response s)
  reload :
      {s : Resolver} {n : ℕ} (rows : Option (List (Option Driver)))
      → n ≡ 0
      → Step s n (configure rows s).0

pub data Reach (s : Resolver) : ℕ → Resolver → Type 0 where
  here : {n : ℕ} → n ≡ 0 → Reach s n s
  next : {m n k : ℕ} {t u : Resolver} → Reach s m t → Step t n u → k ≡ m + n → Reach s k u

Step-IsValid : {s t : Resolver} {n : ℕ} → Step s n t → IsValid s → IsValid t
Step-IsValid (request now http recv e h f d) v = on_data_received-IsValid now http recv _ v
Step-IsValid (noise now http recv e h) v = on_data_received-IsValid now http recv _ v
Step-IsValid (response now r e) v = on_http_response_received-IsValid now r _ v
Step-IsValid (reload rows e) v = configure-IsValid rows _ v

configure-answers :
    (rows : Option (List (Option Driver))) (s : Resolver) → answers (configure rows s).0 ≡ answers s
unfolding configure
configure-answers none s = refl
configure-answers (some rows) s = refl

Step-answers : {s t : Resolver} {n : ℕ} → Step s n t → IsValid s → answers t ≡ answers s + n
Step-answers {s} (request now http recv e h f d) v =
    omega (arith, on_data_received-answers now http recv s h f d)
Step-answers {s} (noise now http recv e h) v =
    omega (arith, ap answers (on_data_received_small now http recv s h))
Step-answers {s} (response now r e) v = omega (arith, on_http_response_received-answers now r s v)
Step-answers {s} (reload rows e) v = omega (arith, configure-answers rows s)

Reach-IsValid : {s t : Resolver} {n : ℕ} → Reach s n t → IsValid s → IsValid t
Reach-IsValid (here e) v = v
Reach-IsValid (next r st e) v = Step-IsValid st (Reach-IsValid r v)

Reach-answers : {s t : Resolver} {n : ℕ} → Reach s n t → IsValid s → answers t ≡ answers s + n
Reach-answers (here e) v = omega arith
Reach-answers (next r st e) v =
    omega (arith, Reach-answers r v, Step-answers st (Reach-IsValid r v))

-- From the initial state, after any history of datagrams, HTTP responses and reloads that brings
-- `n` requests, each with a complete header, an id that no waiting request has and an HTTP client
-- that does not throw, the final replies sent and the requests that wait are `n` together.
pub initial-answers :
    (n : ℕ) (t : Resolver) → Reach initial n t → finals t.effects + length t.waiting_requests ≡ n
unfolding initial
initial-answers n t r = omega (arith, Reach-answers r initial-IsValid)

-- What the resolver is called for: a datagram, with what its HTTP client does, a response, or a
-- reload of the drivers. Nothing is asked of them.
pub data Call : Type 0 where
  receive : ℕ → HttpOutcome → RecvData → Call
  respond_to : ℕ → HttpResponse → Call
  reconfigure : Option (List (Option Driver)) → Call

abbrev pub call : Call → Resolver → Resolver
call (receive now http recv) s = on_data_received now http recv s
call (respond_to now http_response) s = on_http_response_received now http_response s
call (reconfigure rows) s = (configure rows s).0

abbrev pub call_all : List Call → Resolver → Resolver
call_all [] s = s
call_all (c ∷ cs) s = call_all cs (call c s)

call-IsValid : (c : Call) (s : Resolver) → IsValid s → IsValid (call c s)
call-IsValid (receive now http recv) s v = on_data_received-IsValid now http recv s v
call-IsValid (respond_to now http_response) s v =
    on_http_response_received-IsValid now http_response s v
call-IsValid (reconfigure rows) s v = configure-IsValid rows s v

-- Any calls of the resolver, with datagrams, also with ids that wait already or a client that
-- throws, HTTP responses and reloads of the drivers, lead from a valid state to a valid one: the
-- keys of both maps are unique, each waiting request stands under its own id, is tagged or CNAM
-- and is not done, and each driver stands under its own id.
pub call_all-IsValid : (cs : List Call) (s : Resolver) → IsValid s → IsValid (call_all cs s)
call_all-IsValid [] s v = v
call_all-IsValid (c ∷ cs) s v = call_all-IsValid cs (call c s) (call-IsValid c s v)
