-- ===== src/Resolver/Invariant.antt =====
-- The invariant of the resolver's maps, handler by handler.
use yeti_lnp_resolver.Base.{
  ℕ, ◌≡◌, refl, ◌⊎◌, inl, inr, true, false, Option, none, some, List, [], ◌∷◌, arith, ◌==◌, ==_iff,
  ℤ, eq_ℤ, eq_ℤ_iff, All, Bool-cases,
}
use yeti_lnp_resolver.Base.Assoc.{
  lookup, erase, HasUniqueKeys, emplace-HasUniqueKeys, erase-HasUniqueKeys, emplace-All, erase-All,
}
use yeti_lnp_resolver.Types.{
  RecvData, ResolverRequest, new_request, ResolverError, HttpRequest, HttpResponse, SResult,
  Exception,
}
use yeti_lnp_resolver.Resolver.Request.{parse}
use yeti_lnp_resolver.Resolver.State.{
  Resolver, Driver, Action, finish, fetch, raise, HttpOutcome, accepted, refused, raised, Ended,
  send_opt, send_reply, send_error_reply, handle_request_is_done, make_http_request,
  after_make_request, run_action, resolve_with, resolve, answer, on_parsed, on_data_received,
  parse_ended, parse_response_with, parse_response, respond, on_http_response_received, load_rows,
  configure,
}
use yeti_lnp_resolver.Resolver.Log.{HasVersion}

-- A request that waits stands under its id, is tagged or CNAM, and is not done.
abbrev pub IsWaiting : ℕ × ResolverRequest → Type 0
IsWaiting (id, r) = (id ≡ r.id) × HasVersion r × (r.is_done ≡ false)

abbrev pub IsKeyed : ℤ × Driver → Type 0
IsKeyed (id, d) = id ≡ d.unique_id

pub record IsValid (s : Resolver) : Type 0 where
  pub unique : HasUniqueKeys ◌==◌ s.waiting_requests
  pub waiting : All IsWaiting s.waiting_requests
  pub drivers_unique : HasUniqueKeys eq_ℤ s.drivers
  pub drivers_keyed : All IsKeyed s.drivers

-- The two maps are the same in both states.
abbrev pub SameMaps : Resolver → Resolver → Type 0
SameMaps s t = (t.waiting_requests ≡ s.waiting_requests) × (t.drivers ≡ s.drivers)

SameMaps-IsValid : {s t : Resolver} → SameMaps s t → IsValid s → IsValid t
SameMaps-IsValid m v = record {
  unique = rw m.0 v.unique;
  waiting = rw m.0 v.waiting;
  drivers_unique = rw m.1 v.drivers_unique;
  drivers_keyed = rw m.1 v.drivers_keyed;
}

send_opt-SameMaps :
    (r : ResolverRequest) (b : Option _) (s : Resolver) → SameMaps s (send_opt r.client_info b s)
send_opt-SameMaps r none s = (refl, refl)
send_opt-SameMaps r (some b) s = (refl, refl)

pub handle_request_is_done-SameMaps :
    (now : ℕ) (r : ResolverRequest) (d : Driver) (s : Resolver)
    → SameMaps s (handle_request_is_done now r d s)
unfolding handle_request_is_done send_reply
handle_request_is_done-SameMaps now r d s = ground arith

pub answer-SameMaps : (r : ResolverRequest) (e : Ended) → SameMaps e.0 (answer r e)
unfolding answer send_error_reply
answer-SameMaps r (s, none) = (refl, refl)
answer-SameMaps r (s, some e) = ground arith

make_http_request-IsValid :
    (r : ResolverRequest) (h : HttpRequest) (s : Resolver)
    → IsWaiting (r.id, r)
    → IsValid s
    → IsValid (make_http_request r h s)
unfolding make_http_request
make_http_request-IsValid r h s w v = record {
  unique = emplace-HasUniqueKeys ◌==◌ ==_iff r.id r s.waiting_requests v.unique;
  waiting = emplace-All ◌==◌ IsWaiting r.id r s.waiting_requests w v.waiting;
  drivers_unique = v.drivers_unique;
  drivers_keyed = v.drivers_keyed;
}

run_action-IsValid :
    (now : ℕ) (http : HttpOutcome) (d : Driver) (r : ResolverRequest) (a : Action) (s : Resolver)
    → IsWaiting (r.id, r)
    → IsValid s
    → IsValid (run_action now http d r a s).0
unfolding run_action after_make_request
run_action-IsValid now http d r (finish result) s w v =
    SameMaps-IsValid
      (handle_request_is_done-SameMaps now (record r { is_done = true; result = result }) d s) v
run_action-IsValid now accepted d r (fetch h) s w v = make_http_request-IsValid r h s w v
run_action-IsValid now refused d r (fetch h) s w v = make_http_request-IsValid r h s w v
run_action-IsValid now (raised what) d r (fetch h) s w v =
    SameMaps-IsValid {s = make_http_request r h s} (refl, refl)
      (make_http_request-IsValid r h s w v)
run_action-IsValid now http d r (raise e) s w v = SameMaps-IsValid {s = s} (refl, refl) v

resolve_with-IsValid :
    (now : ℕ) (http : HttpOutcome) (r : ResolverRequest) (s : Resolver) (d : Option Driver)
    → IsWaiting (r.id, r)
    → IsValid s
    → IsValid (resolve_with now http r s d).0
unfolding resolve_with
resolve_with-IsValid now http r s none w v = v
resolve_with-IsValid now http r s (some d) w v = elim (Bool-cases (eq_ℤ d.driver_type r.type)) [
  | inl same ↦
      rw same (
        run_action-IsValid now http d r (d.resolve r) _ w (SameMaps-IsValid {s = s} (refl, refl) v))
  | inr differ ↦ rw differ v
]

on_parsed-IsValid :
    (now : ℕ) (http : HttpOutcome) (s : Resolver) (r : ResolverRequest) (e : Option ResolverError)
    → (e ≡ none → IsWaiting (r.id, r))
    → IsValid s
    → IsValid (on_parsed now http s (r, e))
unfolding on_parsed resolve
on_parsed-IsValid now http s r (some e) w v = SameMaps-IsValid (answer-SameMaps r (s, some e)) v
on_parsed-IsValid now http s r none w v =
    SameMaps-IsValid (answer-SameMaps r _)
      (resolve_with-IsValid now http r _ _ (w refl) (SameMaps-IsValid {s = s} (refl, refl) v))

parse-IsWaiting :
    (recv : RecvData) (r : ResolverRequest)
    → r.is_done ≡ false
    → (parse recv r).1 ≡ none
    → IsWaiting ((parse recv r).0.id, (parse recv r).0)
unfolding parse
parse-IsWaiting recv r d h = ground arith

-- A datagram keeps the invariant, whatever it holds.
pub on_data_received-IsValid :
    (now : ℕ) (http : HttpOutcome) (recv : RecvData) (s : Resolver)
    → IsValid s
    → IsValid (on_data_received now http recv s)
unfolding on_data_received new_request
on_data_received-IsValid now http recv s v =
    let r = new_request recv.client_info now in
    let p = parse recv r in on_parsed-IsValid now http s p.0 p.1 (parse-IsWaiting recv r refl) v

erase-IsValid :
    (id : ℕ) (s : Resolver)
    → IsValid s
    → IsValid (record s { waiting_requests = erase ◌==◌ id s.waiting_requests })
erase-IsValid id s v = record {
  unique = erase-HasUniqueKeys ◌==◌ ==_iff id s.waiting_requests v.unique;
  waiting = erase-All ◌==◌ IsWaiting id s.waiting_requests v.waiting;
  drivers_unique = v.drivers_unique;
  drivers_keyed = v.drivers_keyed;
}

parse_ended-SameMaps :
    (now : ℕ) (d : Driver) (r : ResolverRequest) (s : Resolver) (e : Exception ⊎ SResult)
    → SameMaps s (parse_ended now d r s e).0
unfolding parse_ended
parse_ended-SameMaps now d r s (inl x) = (refl, refl)
parse_ended-SameMaps now d r s (inr result) =
    handle_request_is_done-SameMaps now (record r { is_done = true; result = result }) d s

pub parse_response_with-SameMaps :
    (now : ℕ) (response : HttpResponse) (r : ResolverRequest) (s : Resolver) (d : Option Driver)
    → SameMaps s (parse_response_with now response r s d).0
unfolding parse_response_with
parse_response_with-SameMaps now response r s none = (refl, refl)
parse_response_with-SameMaps now response r s (some d) =
    ground (arith, parse_ended-SameMaps now d r s (d.parse response.body r))

respond-IsValid :
    (now : ℕ) (response : HttpResponse) (s : Resolver) (r : Option ResolverRequest)
    → IsValid s
    → IsValid (respond now response s r)
unfolding respond parse_response
respond-IsValid now response s none v = v
respond-IsValid now response s (some r) v =
    let left = record s { waiting_requests = erase ◌==◌ response.id s.waiting_requests } in
    let d = lookup eq_ℤ r.db_id left.drivers in
    let ended = parse_response_with now response r left d in
    SameMaps-IsValid {s = ended.0} (answer-SameMaps r ended) (
      SameMaps-IsValid {s = left} (parse_response_with-SameMaps now response r left d)
        (erase-IsValid response.id s v))

-- So does an HTTP response.
pub on_http_response_received-IsValid :
    (now : ℕ) (response : HttpResponse) (s : Resolver)
    → IsValid s
    → IsValid (on_http_response_received now response s)
unfolding on_http_response_received
on_http_response_received-IsValid now response s v = respond-IsValid now response s _ v

abbrev IsDriverMap : List (ℤ × Driver) → Type 0
IsDriverMap m = HasUniqueKeys eq_ℤ m × All IsKeyed m

load_rows-IsDriverMap :
    (rows : List (Option Driver)) (m : List (ℤ × Driver))
    → IsDriverMap m
    → IsDriverMap (load_rows rows m)
unfolding load_rows
load_rows-IsDriverMap [] m v = v
load_rows-IsDriverMap (none ∷ rows) m v = load_rows-IsDriverMap rows m v
load_rows-IsDriverMap (some d ∷ rows) m v = load_rows-IsDriverMap rows _ (
  emplace-HasUniqueKeys eq_ℤ eq_ℤ_iff d.unique_id d m v.0,
  emplace-All eq_ℤ IsKeyed d.unique_id d m refl v.1,
)

-- And so does a reload of the drivers, which touches no waiting request.
pub configure-IsValid :
    (rows : Option (List (Option Driver))) (s : Resolver) → IsValid s → IsValid (configure rows s).0
unfolding configure
configure-IsValid none s v = v
configure-IsValid (some rows) s v =
    let loaded = load_rows-IsDriverMap rows [] (tt, tt) in
    record {
      unique = v.unique;
      waiting = v.waiting;
      drivers_unique = loaded.0;
      drivers_keyed = loaded.1;
    }
