-- ===== src/Resolver/Addressing.antt =====
-- To whom the resolver's datagrams go, and whose id they carry.
use mathlib.Core.List.{append-nil, append_assoc}
use mathlib.Core.Path.{subst₂}
use yeti_lnp_resolver.Base.{
  ℕ, ◌≡◌, refl, sym, ap, ◌∙◌, ◌⊎◌, inl, inr, true, Option, none, some, List, [], ◌∷◌, ◌++◌, Bytes,
  arith, ◌==◌, pos, eq_ℤ, All, All-append, Bool-cases, write_u32, read_u32, ◌≤◌,
}
use yeti_lnp_resolver.Base.Assoc.{lookup, erase}
use yeti_lnp_resolver.Types.{
  ClientInfo, RecvData, ResolverRequest, new_request, ResolverError, HttpResponse, SResult,
  Exception,
}
use yeti_lnp_resolver.Resolver.Request.{parse}
use yeti_lnp_resolver.Resolver.Reply.{provisional_reply, reply_of, error_reply_of}
use yeti_lnp_resolver.Resolver.State.{
  Resolver, Driver, Action, finish, fetch, raise, Effect, send_data, failed_increment, make_request,
  HttpOutcome, accepted, refused, raised, Ended, emit, send_opt, send_reply, send_error_reply,
  handle_request_is_done, make_http_request, after_make_request, run_action, resolve_with, resolve,
  answer, on_parsed, on_data_received, parse_ended, parse_response_with, parse_response, respond,
  on_http_response_received,
}
use yeti_lnp_resolver.Resolver.Replies.{IsReplyTo, reply_of-IsReplyTo, error_reply_of-IsReplyTo}

-- A datagram goes to this client, and begins with the request's id; other effects are no matter.
abbrev pub IsFor : ClientInfo → ℕ → Effect → Type 0
IsFor client id (send_data c b) = (c ≡ client) × (body : Bytes) × (b ≡ write_u32 id ++ body)
IsFor client id _ = Unit

-- The second state has the effects of the first, and then only such as are for this client and id.
pub record Extends (client : ClientInfo) (id : ℕ) (s t : Resolver) : Type 0 where
  pub added : List Effect
  pub appended : t.effects ≡ s.effects ++ added
  pub addressed : All (IsFor client id) added

module _ {client : ClientInfo} {id : ℕ} where
  Extends-refl : (s : Resolver) → Extends client id s s
  Extends-refl s = record { added = []; appended = sym (append-nil s.effects); addressed = tt }

  Extends-trans :
      {s t u : Resolver} → Extends client id s t → Extends client id t u → Extends client id s u
  Extends-trans {s} x y = record {
    added = x.added ++ y.added;
    appended = y.appended ∙ ap (λ es. es ++ y.added) x.appended ∙ append_assoc s.effects _ _;
    addressed = All-append (IsFor client id) x.added y.added x.addressed y.addressed;
  }

  Extends-emit : (e : Effect) (s : Resolver) → IsFor client id e → Extends client id s (emit e s)
  Extends-emit e s h = record { added = e ∷ []; appended = refl; addressed = (h, tt) }

  send_opt-Extends :
      (b : Option Bytes) (s : Resolver)
      → ((x : Bytes) → b ≡ some x → IsReplyTo id x)
      → Extends client id s (send_opt client b s)
  send_opt-Extends none s h = Extends-refl s
  send_opt-Extends (some b) s h =
      let (body, e, _) = h b refl in Extends-emit (send_data client b) s (refl, body, e)

send_reply-Extends :
    (r : ResolverRequest) (s : Resolver) → Extends r.client_info r.id s (send_reply r s)
unfolding send_reply
send_reply-Extends r s =
    send_opt-Extends (reply_of r.type r) s (λ x e. reply_of-IsReplyTo r.type r x e)

answer-Extends : (r : ResolverRequest) (e : Ended) → Extends r.client_info r.id e.0 (answer r e)
unfolding answer send_error_reply
answer-Extends r (s, none) = Extends-refl s
answer-Extends r (s, some e) =
    send_opt-Extends (error_reply_of r.type r e.code e.what) s
      (λ x h. error_reply_of-IsReplyTo r.type r e.code e.what x h)

handle_request_is_done-Extends :
    (now : ℕ) (r : ResolverRequest) (d : Driver) (s : Resolver)
    → Extends r.client_info r.id s (handle_request_is_done now r d s)
unfolding handle_request_is_done
handle_request_is_done-Extends now r d s = elim (Bool-cases (eq_ℤ d.driver_type (pos 0))) [
  | inl t ↦ rw t (
      Extends-trans (Extends-emit _ s tt)
        (Extends-trans (Extends-emit _ _ tt) (send_reply-Extends r _)))
  | inr t ↦ rw t (Extends-trans (Extends-emit _ s tt) (send_reply-Extends r _))
]

run_action-Extends :
    (now : ℕ) (http : HttpOutcome) (d : Driver) (r : ResolverRequest) (a : Action) (s : Resolver)
    → Extends r.client_info r.id s (run_action now http d r a s).0
unfolding run_action after_make_request make_http_request
run_action-Extends now http d r (finish result) s =
    handle_request_is_done-Extends now (record r { is_done = true; result = result }) d s
run_action-Extends now accepted d r (fetch h) s = record {
  added = make_request h ∷ [];
  appended = refl;
  addressed = (tt, tt);
}
run_action-Extends now refused d r (fetch h) s = record {
  added = make_request h ∷ [];
  appended = refl;
  addressed = (tt, tt);
}
run_action-Extends now (raised what) d r (fetch h) s = record {
  added = make_request h ∷ failed_increment d.unique_id ∷ [];
  appended = append_assoc s.effects _ _;
  addressed = (tt, (tt, tt));
}
run_action-Extends now http d r (raise e) s = Extends-emit _ s tt

resolve_with-Extends :
    (now : ℕ) (http : HttpOutcome) (r : ResolverRequest) (s : Resolver) (d : Option Driver)
    → Extends r.client_info r.id s (resolve_with now http r s d).0
unfolding resolve_with
resolve_with-Extends now http r s none = Extends-refl s
resolve_with-Extends now http r s (some d) = elim (Bool-cases (eq_ℤ d.driver_type r.type)) [
  | inl same ↦
      rw same
        (Extends-trans (Extends-emit _ s tt) (run_action-Extends now http d r (d.resolve r) _))
  | inr differ ↦ rw differ (Extends-refl s)
]

on_parsed-Extends :
    (now : ℕ) (http : HttpOutcome) (s : Resolver) (r : ResolverRequest) (e : Option ResolverError)
    → Extends r.client_info r.id s (on_parsed now http s (r, e))
unfolding on_parsed resolve provisional_reply
on_parsed-Extends now http s r (some e) = answer-Extends r (s, some e)
on_parsed-Extends now http s r none =
    Extends-trans (Extends-emit _ s (refl, [], sym (append-nil (write_u32 r.id))))
      (Extends-trans (resolve_with-Extends now http r _ _) (answer-Extends r _))

parse-client :
    (recv : RecvData) (r : ResolverRequest) → (parse recv r).0.client_info ≡ recv.client_info
unfolding parse
parse-client recv r = ground arith

parse-id :
    (recv : RecvData) (r : ResolverRequest)
    → 6 ≤ recv.length
    → (parse recv r).0.id ≡ read_u32 recv.buffer 0
unfolding parse
parse-id recv r h = ground arith

-- All datagrams that the handler of a datagram of at least six bytes sends go to its sender, and
-- begin with the id in its first four bytes.
pub on_data_received-Extends :
    (now : ℕ) (http : HttpOutcome) (recv : RecvData) (s : Resolver)
    → 6 ≤ recv.length
    → Extends recv.client_info (read_u32 recv.buffer 0) s (on_data_received now http recv s)
unfolding on_data_received
on_data_received-Extends now http recv s h =
    let r = new_request recv.client_info now in
    subst₂ (λ c i. Extends c i s (on_parsed now http s (parse recv r))) (parse-client recv r)
      (parse-id recv r h) (on_parsed-Extends now http s (parse recv r).0 (parse recv r).1)

parse_ended-Extends :
    (now : ℕ) (d : Driver) (r : ResolverRequest) (s : Resolver) (e : Exception ⊎ SResult)
    → Extends r.client_info r.id s (parse_ended now d r s e).0
unfolding parse_ended
parse_ended-Extends now d r s (inl x) = Extends-emit _ s tt
parse_ended-Extends now d r s (inr result) =
    handle_request_is_done-Extends now (record r { is_done = true; result = result }) d s

parse_response_with-Extends :
    (now : ℕ) (response : HttpResponse) (r : ResolverRequest) (s : Resolver) (d : Option Driver)
    → Extends r.client_info r.id s (parse_response_with now response r s d).0
unfolding parse_response_with
parse_response_with-Extends now response r s none = Extends-refl s
parse_response_with-Extends now response r s (some d) =
    elim (Bool-cases (eq_ℤ d.driver_type r.type)) [
      | inl same ↦ elim (Bool-cases response.is_success) [
        | inl success ↦ rw (same, success) (parse_ended-Extends now d r s (d.parse response.body r))
        | inr failure ↦ rw (same, failure) (Extends-emit _ s tt)
      ]
      | inr differ ↦ rw differ (Extends-refl s)
    ]

-- All datagrams that an HTTP response makes the resolver send go to the client of the request that
-- waited under the response's id, and begin with that request's id.
pub on_http_response_received-Extends :
    (now : ℕ) (response : HttpResponse) (s : Resolver) (r : ResolverRequest)
    → lookup ◌==◌ response.id s.waiting_requests ≡ some r
    → Extends r.client_info r.id s (on_http_response_received now response s)
unfolding on_http_response_received respond parse_response
on_http_response_received-Extends now response s r e =
    let left = record s { waiting_requests = erase ◌==◌ response.id s.waiting_requests } in
    let ended = parse_response_with now response r left (lookup eq_ℤ r.db_id s.drivers) in
    let erased : Extends r.client_info r.id s left = record {
      added = [];
      appended = sym (append-nil s.effects);
      addressed = tt;
    } in
    rw e (
      Extends-trans erased (
        Extends-trans (parse_response_with-Extends now response r left _) (answer-Extends r ended)))
