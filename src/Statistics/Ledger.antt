-- ===== src/Statistics/Ledger.antt =====
-- The counters of one driver in the resolver: the requests that were counted for it, and what became
-- of them.
use mathlib.Core.Path.{subst}
use yeti_lnp_resolver.Base.{
  sym, ℕ, ◌+◌, Bool, true, false, ◌≡◌, inl, inr, Option, none, some, List, [], ◌∷◌, ◌==◌, ℤ, eq_ℤ,
  if◌then◌else◌, Bool-cases, arith, ◌-◌, ◌⊎◌, pos,
}
use yeti_lnp_resolver.Base.Counting.{count, count-append, count-emplace}
use yeti_lnp_resolver.Types.{ResolverRequest, ResolverError, HttpRequest, Exception, SResult}
use yeti_lnp_resolver.Resolver.State.{
  Resolver, Driver, Action, finish, fetch, raise, Effect, send_data, count_increment,
  failed_increment, finished_increment, cache_sync, make_request, HttpOutcome, accepted, refused,
  raised, emit, Ended, send_opt, send_reply, send_error_reply, handle_request_is_done,
  make_http_request, after_make_request, run_action, answer, parse_ended, fail_with, cache_entry_of,
}
use yeti_lnp_resolver.Resolver.Reply.{reply_of}
use yeti_lnp_resolver.Resolver.Answers.{IsFresh, DoesReturn}

-- Whether an effect counts a request of the driver, and whether it settles one.
abbrev pub is_counted : ℤ → Effect → Bool
is_counted i (count_increment j) = eq_ℤ j i
is_counted i _ = false

abbrev pub is_settled : ℤ → Effect → Bool
is_settled i (failed_increment j) = eq_ℤ j i
is_settled i (finished_increment j time) = eq_ℤ j i
is_settled i _ = false

abbrev pub waits : ℤ → List (ℕ × ResolverRequest) → ℕ
waits i m = count (λ p. eq_ℤ p.1.db_id i) m

-- The requests counted, and those settled or waiting.
abbrev pub counted : ℤ → Resolver → ℕ
counted i s = count (is_counted i) s.effects

abbrev pub accounted : ℤ → Resolver → ℕ
accounted i s = count (is_settled i) s.effects + waits i s.waiting_requests

abbrev pub one_if_same : ℤ → ℤ → ℕ
one_if_same j i = if eq_ℤ j i then 1 else 0

-- The ledger of the driver: how far a step moves both sides.
abbrev pub Moves : ℤ → ℕ → ℕ → Resolver → Resolver → Type 0
Moves i m n s t = (counted i t ≡ counted i s + m) × (accounted i t ≡ accounted i s + n)

pub emit-Moves :
    (i : ℤ) (x : Effect) (s : Resolver)
    → Moves i (if is_counted i x then 1 else 0) (if is_settled i x then 1 else 0) s (emit x s)
emit-Moves i x s = (
  omega (arith, count-append (is_counted i) s.effects (x ∷ [])),
  omega (arith, count-append (is_settled i) s.effects (x ∷ [])),
)

pub send_opt-Moves :
    (i : ℤ) (r : ResolverRequest) (b : Option _) (s : Resolver)
    → Moves i 0 0 s (send_opt r.client_info b s)
send_opt-Moves i r none s = (omega arith, omega arith)
send_opt-Moves i r (some b) s = emit-Moves i (send_data r.client_info b) s

handle_request_is_done-Moves :
    (i : ℤ) (now : ℕ) (r : ResolverRequest) (d : Driver) (s : Resolver)
    → Moves i 0 (one_if_same d.unique_id i) s (handle_request_is_done now r d s)
unfolding handle_request_is_done send_reply
handle_request_is_done-Moves i now r d s =
    let counted = emit (finished_increment d.unique_id (now - r.req_start)) s in
    let cached = emit (cache_sync (cache_entry_of d r)) counted in
    let first = emit-Moves i (finished_increment d.unique_id (now - r.req_start)) s in
    let second = emit-Moves i (cache_sync (cache_entry_of d r)) counted in
    elim (Bool-cases (eq_ℤ d.driver_type (pos 0))) [
      | inl tagged ↦
          let sent = send_opt-Moves i r (reply_of r.type r) cached in
          rw tagged
            (omega (arith, first.0, second.0, sent.0), omega (arith, first.1, second.1, sent.1))
      | inr other ↦
          let sent = send_opt-Moves i r (reply_of r.type r) counted in
          rw other (omega (arith, first.0, sent.0), omega (arith, first.1, sent.1))
    ]

pub answer-Moves : (i : ℤ) (r : ResolverRequest) (e : Ended) → Moves i 0 0 e.0 (answer r e)
unfolding answer send_error_reply
answer-Moves i r (s, none) = (omega arith, omega arith)
answer-Moves i r (s, some e) = send_opt-Moves i r _ s

pub Moves-trans :
    (i : ℤ) (a b c d : ℕ) (s t u : Resolver)
    → Moves i a b s t
    → Moves i c d t u
    → Moves i (a + c) (b + d) s u
Moves-trans i a b c d s t u (p, q) (v, w) = (omega arith, omega arith)

pub fail_with-Moves :
    (i : ℤ) (d : Driver) (e : ResolverError) (s : Resolver)
    → Moves i 0 (one_if_same d.unique_id i) s (fail_with d e s).0
fail_with-Moves i d e s = emit-Moves i (failed_increment d.unique_id) s

-- A request that is new in the map waits for its driver.
make_http_request-Moves :
    (i : ℤ) (r : ResolverRequest) (h : HttpRequest) (s : Resolver)
    → IsFresh r.id s
    → Moves i 0 (one_if_same r.db_id i) s (make_http_request r h s)
unfolding make_http_request
make_http_request-Moves i r h s fresh =
    let stored = count-emplace ◌==◌ (λ w. eq_ℤ w.db_id i) r.id r s.waiting_requests fresh in
    let sent = emit-Moves i (make_request h) s in
    (omega (arith, sent.0), omega (arith, sent.1, stored))

fetched-Moves :
    (i : ℤ) (d : Driver) (r : ResolverRequest) (h : HttpRequest) (s : Resolver)
    → d.unique_id ≡ r.db_id
    → IsFresh r.id s
    → Moves i 0 (one_if_same d.unique_id i) s (make_http_request r h s)
fetched-Moves i d r h s same fresh =
    subst (λ j. Moves i 0 (one_if_same j i) s (make_http_request r h s)) (sym same)
      (make_http_request-Moves i r h s fresh)

pub run_action-Moves :
    (i : ℤ) (now : ℕ) (http : HttpOutcome) (d : Driver) (r : ResolverRequest) (a : Action)
    (s : Resolver)
    → d.unique_id ≡ r.db_id
    → IsFresh r.id s
    → DoesReturn http
    → Moves i 0 (one_if_same d.unique_id i) s (run_action now http d r a s).0
unfolding run_action after_make_request
run_action-Moves i now http d r (finish result) s same fresh ok =
    handle_request_is_done-Moves i now (record r { is_done = true; result = result }) d s
run_action-Moves i now accepted d r (fetch h) s same fresh ok = fetched-Moves i d r h s same fresh
run_action-Moves i now refused d r (fetch h) s same fresh ok = fetched-Moves i d r h s same fresh
run_action-Moves i now (raised what) d r (fetch h) s same fresh ok = absurd ok
run_action-Moves i now http d r (raise e) s same fresh ok =
    emit-Moves i (failed_increment d.unique_id) s

pub parse_ended-Moves :
    (i : ℤ) (now : ℕ) (d : Driver) (r : ResolverRequest) (s : Resolver) (e : Exception ⊎ SResult)
    → Moves i 0 (one_if_same d.unique_id i) s (parse_ended now d r s e).0
unfolding parse_ended
parse_ended-Moves i now d r s (inl x) = emit-Moves i (failed_increment d.unique_id) s
parse_ended-Moves i now d r s (inr result) =
    handle_request_is_done-Moves i now (record r { is_done = true; result = result }) d s
