-- ===== src/Resolver/Answers.antt =====
-- How each handler of the resolver changes `answers`, the final replies sent and the requests that
-- wait.
use yeti_lnp_resolver.Base.{
  ℕ, suc, ◌+◌, ◌-◌, ◌≤◌, ◌≡◌, refl, ◌⊎◌, inl, inr, true, Option, none, some, arith, ◌==◌, read_u32,
  eq_ℤ, Bool-cases, ap, ◌∙◌, ◌<◌, lt→ltb, c_str,
}
use native.Mathlib.Nat.{add-zero}
use yeti_lnp_resolver.Base.Assoc.{lookup, erase, length-emplace, length-erase}
use yeti_lnp_resolver.Types.{
  RecvData, ResolverRequest, new_request, ResolverError, HttpRequest, HttpResponse, SResult,
  Exception,
}
use yeti_lnp_resolver.Resolver.Request.{parse}
use yeti_lnp_resolver.Resolver.Reply.{provisional_reply}
use yeti_lnp_resolver.Resolver.State.{
  Resolver, Driver, Action, finish, fetch, raise, Effect, send_data, count_increment,
  failed_increment, finished_increment, cache_sync, make_request, HttpOutcome, accepted, refused,
  raised, emit, Ended, handle_request_is_done, make_http_request, after_make_request, run_action,
  resolve_with, resolve, answer, on_parsed, on_data_received, parse_ended, parse_response_with,
  parse_response, respond, cache_entry_of, resolve_error, fail_with, resolving_error, parse_error,
}
use yeti_lnp_resolver.Resolver.Log.{
  final, finals-snoc, answers, HasVersion, send_reply-answers, send_error_reply-answers,
  send_error_reply_untyped,
}

-- An effect that is no datagram leaves the count alone.
emit-answers : (e : Effect) (s : Resolver) → answers (emit e s) ≡ answers s + final e
emit-answers e s = omega (arith, finals-snoc s.effects e)

handle_request_is_done-answers :
    (now : ℕ) (r : ResolverRequest) (d : Driver) (s : Resolver)
    → HasVersion r
    → answers (handle_request_is_done now r d s) ≡ suc (answers s)
unfolding handle_request_is_done
handle_request_is_done-answers now r d s v =
    let counted = emit (finished_increment d.unique_id (now - r.req_start)) s in
    let cached = emit (cache_sync (cache_entry_of d r)) counted in
    ground (
      arith,
      emit-answers (finished_increment d.unique_id (now - r.req_start)) s,
      emit-answers (cache_sync (cache_entry_of d r)) counted,
      send_reply-answers r counted v,
      send_reply-answers r cached v,
    )

-- The count once the exception that leaves a handler, if any, is turned into an error reply.
abbrev pub owed : Ended → ℕ
owed (s, none) = answers s
owed (s, some e) = suc (answers s)

answer-answers : (r : ResolverRequest) (e : Ended) → HasVersion r → answers (answer r e) ≡ owed e
unfolding answer
answer-answers r (s, none) v = refl
answer-answers r (s, some e) v = send_error_reply-answers r e s v

abbrev pub IsFresh : ℕ → Resolver → Type 0
IsFresh id s = lookup ◌==◌ id s.waiting_requests ≡ none

-- `make_request` did not throw.
abbrev pub DoesReturn : HttpOutcome → Type 0
DoesReturn (raised what) = ⊥
DoesReturn _ = Unit

make_http_request-answers :
    (r : ResolverRequest) (h : HttpRequest) (s : Resolver)
    → IsFresh r.id s
    → answers (make_http_request r h s) ≡ suc (answers s)
unfolding make_http_request
make_http_request-answers r h s f =
    omega (
      arith,
      finals-snoc s.effects (make_request h),
      length-emplace ◌==◌ r.id r s.waiting_requests f,
    )

fail_with-owed :
    (d : Driver) (e : ResolverError) (s : Resolver) → owed (fail_with d e s) ≡ suc (answers s)
fail_with-owed d e s = omega (arith, finals-snoc s.effects (failed_increment d.unique_id))

run_action-owed :
    (now : ℕ) (http : HttpOutcome) (d : Driver) (r : ResolverRequest) (a : Action) (s : Resolver)
    → HasVersion r
    → IsFresh r.id s
    → DoesReturn http
    → owed (run_action now http d r a s) ≡ suc (answers s)
unfolding run_action after_make_request
run_action-owed now http d r (finish result) s v f n =
    handle_request_is_done-answers now (record r { is_done = true; result = result }) d s v
run_action-owed now accepted d r (fetch h) s v f n = make_http_request-answers r h s f
run_action-owed now refused d r (fetch h) s v f n = make_http_request-answers r h s f
run_action-owed now (raised what) d r (fetch h) s v f n = absurd n
run_action-owed now http d r (raise e) s v f n = fail_with-owed d (resolve_error e) s

resolve_with-owed :
    (now : ℕ) (http : HttpOutcome) (r : ResolverRequest) (s : Resolver) (d : Option Driver)
    → HasVersion r
    → IsFresh r.id s
    → DoesReturn http
    → owed (resolve_with now http r s d) ≡ suc (answers s)
unfolding resolve_with
resolve_with-owed now http r s none v f n = refl
resolve_with-owed now http r s (some d) v f n = elim (Bool-cases (eq_ℤ d.driver_type r.type)) [
  | inl same ↦ rw same (
      run_action-owed now http d r (d.resolve r) (emit (count_increment d.unique_id) s) v f n
      ∙ ap suc (emit-answers (count_increment d.unique_id) s ∙ add-zero _))
  | inr differ ↦ rw differ
]

-- A request that `parse` let through, whose id is not waiting, adds one answer.
on_parsed-answers :
    (now : ℕ) (http : HttpOutcome) (s : Resolver) (r : ResolverRequest) (e : Option ResolverError)
    → HasVersion r
    → IsFresh r.id s
    → DoesReturn http
    → answers (on_parsed now http s (r, e)) ≡ suc (answers s)
unfolding on_parsed resolve provisional_reply
on_parsed-answers now http s r (some e) v f n = answer-answers r (s, some e) v
on_parsed-answers now http s r none v f n =
    let provisional = send_data r.client_info (provisional_reply r) in
    answer-answers r (resolve now http r (emit provisional s)) v
    ∙ resolve_with-owed now http r (emit provisional s) _ v f n
    ∙ ap suc (emit-answers provisional s ∙ add-zero _)

-- A header makes the type known: it is read, or forced to that of a tagged request.
parse-HasVersion :
    (recv : RecvData) (r : ResolverRequest)
    → 6 ≤ recv.length
    → ((parse recv r).0.id ≡ read_u32 recv.buffer 0) × HasVersion (parse recv r).0
unfolding parse
parse-HasVersion recv r h = ground arith

-- A datagram of at least six bytes, whatever they are, sends one final reply more or makes one
-- request more wait, if no request with its id waits already and `make_request` does not throw.
pub on_data_received-answers :
    (now : ℕ) (http : HttpOutcome) (recv : RecvData) (s : Resolver)
    → 6 ≤ recv.length
    → IsFresh (read_u32 recv.buffer 0) s
    → DoesReturn http
    → answers (on_data_received now http recv s) ≡ suc (answers s)
unfolding on_data_received
on_data_received-answers now http recv s h f n =
    let p = parse recv (new_request recv.client_info now) in
    let (id, v) = parse-HasVersion recv (new_request recv.client_info now) h in
    on_parsed-answers now http s p.0 p.1 v (rw id f) n

-- A datagram of less than six bytes changes nothing, and nobody is answered.
pub on_data_received_small :
    (now : ℕ) (http : HttpOutcome) (recv : RecvData) (s : Resolver)
    → recv.length < 6
    → on_data_received now http recv s ≡ s
unfolding on_data_received on_parsed answer new_request parse
on_data_received_small now http recv s h =
    rw (lt→ltb recv.length 6 h) (send_error_reply_untyped _ _ s refl)

parse_ended-owed :
    (now : ℕ) (d : Driver) (r : ResolverRequest) (s : Resolver) (e : Exception ⊎ SResult)
    → HasVersion r
    → owed (parse_ended now d r s e) ≡ suc (answers s)
unfolding parse_ended
parse_ended-owed now d r s (inl x) v = fail_with-owed d (parse_error x) s
parse_ended-owed now d r s (inr result) v =
    handle_request_is_done-answers now (record r { is_done = true; result = result }) d s v

parse_response_with-owed :
    (now : ℕ) (response : HttpResponse) (r : ResolverRequest) (s : Resolver) (d : Option Driver)
    → HasVersion r
    → owed (parse_response_with now response r s d) ≡ suc (answers s)
unfolding parse_response_with
parse_response_with-owed now response r s none v = refl
parse_response_with-owed now response r s (some d) v =
    elim (Bool-cases (eq_ℤ d.driver_type r.type)) [
      | inl same ↦ elim (Bool-cases response.is_success) [
        | inl success ↦ rw (same, success) (parse_ended-owed now d r s (d.parse response.body r) v)
        | inr failure ↦
            rw (same, failure) (fail_with-owed d (resolving_error (c_str response.body)) s)
      ]
      | inr differ ↦ rw differ
    ]

abbrev pub FoundHasVersion : Option ResolverRequest → Type 0
FoundHasVersion none = Unit
FoundHasVersion (some r) = HasVersion r

pub respond-answers :
    (now : ℕ) (response : HttpResponse) (s : Resolver) (r : Option ResolverRequest)
    → lookup ◌==◌ response.id s.waiting_requests ≡ r
    → FoundHasVersion r
    → answers (respond now response s r) ≡ answers s
unfolding respond parse_response
respond-answers now response s none e v = refl
respond-answers now response s (some r) e v =
    let left = record s { waiting_requests = erase ◌==◌ response.id s.waiting_requests } in
    answer-answers r (parse_response now response r left) v
    ∙ parse_response_with-owed now response r left _ v
    ∙ omega (arith, length-erase ◌==◌ response.id r s.waiting_requests e)
