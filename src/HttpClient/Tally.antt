-- ===== src/HttpClient/Tally.antt =====
-- What becomes of the requests that `AsyncHttpClient::make_request` accepts, over any sequence of
-- requests and events. The responses that were handed over are kept in a list.
use mathlib.Core.List.{append_assoc, append-nil}
use yeti_lnp_resolver.Base.{
  ◌≡◌, refl, sym, ap, ◌∙◌, inl, inr, ℕ, ◌+◌, Bool, true, Option, none, some, List, [], ◌∷◌, ◌++◌,
  ◌==◌, ==_iff, ℤ, is_negative, if◌then◌else◌, Bool-cases, arith,
}
use yeti_lnp_resolver.Base.Assoc.{lookup, erase}
use yeti_lnp_resolver.Base.Counting.{count, count-append}
use yeti_lnp_resolver.Types.{HttpRequest, HttpResponse}
use yeti_lnp_resolver.Resolver.State.{HttpOutcome, accepted}
use yeti_lnp_resolver.EventHandler.{Events, EpollOp}
use yeti_lnp_resolver.HttpClient.Setup.{Curl, Setup, setup}
use yeti_lnp_resolver.HttpClient.Timer.{TimerRead}
use yeti_lnp_resolver.HttpClient.Transfers.{
  ConnInfo, HttpClient, Callback, Message, done, other_message, notify_respose_available,
  response_of, complete, check_multi_info,
}
use yeti_lnp_resolver.HttpClient.State.{
  add_handle, make_with, make_request, respose_notifier_event_handler, Multi, handle_event,
}
use yeti_lnp_resolver.HttpClient.Drain.{hand_all, respose_notifier_event_handler-hand_all}
use yeti_lnp_resolver.HttpClient.Core.{Core, core, ids_of, run_callbacks-core, handle_event-keeps}

-- What happens to the client: a request, with libcurl's part in it, or an event of the dispatcher.
pub data ClientStep : Type 0 where
  request : List Callback → Curl → HttpRequest → ClientStep
  event : TimerRead → Multi → ℤ → Events → ClientStep

abbrev pub keep_response : Option (HttpResponse → List HttpResponse → List HttpResponse)
keep_response = some (λ r log. log ++ (r ∷ []))

-- The id of a request that was accepted.
abbrev pub id_if_accepted : HttpOutcome → ℕ → List ℕ
id_if_accepted accepted id = id ∷ []
id_if_accepted _ id = []

module _ {K : Type 0} (epoll_ctl : EpollOp → ℤ → K → ℤ × K) where
  abbrev pub step : ClientStep → HttpClient K × List HttpResponse → HttpClient K × List HttpResponse
  step (request xs curl r) (c, log) = ((make_request epoll_ctl xs curl r c).1, log)
  step (event read multi fd ev) w = handle_event epoll_ctl keep_response read multi fd ev w

  abbrev pub run :
      List ClientStep → HttpClient K × List HttpResponse → HttpClient K × List HttpResponse
  run [] w = w
  run (x ∷ xs) w = run xs (step x w)

  abbrev pub accepted_id : ClientStep → HttpClient K → List ℕ
  accepted_id (request xs curl r) c = id_if_accepted (make_request epoll_ctl xs curl r c).0 r.id
  accepted_id (event read multi fd ev) c = []

  -- The ids of the requests that were accepted in a run.
  abbrev pub accepted_ids : List ClientStep → HttpClient K × List HttpResponse → List ℕ
  accepted_ids [] w = []
  accepted_ids (x ∷ xs) w = accepted_id x w.0 ++ accepted_ids xs (step x w)

-- How many transfers with an id are in progress, and how many responses with it are in a list.
abbrev pub in_progress : ℕ → List (ℕ × ConnInfo) → ℕ
in_progress n [] = 0
in_progress n ((k, conn) ∷ m) = (if conn.id == n then 1 else 0) + in_progress n m

abbrev pub answered : ℕ → List HttpResponse → ℕ
answered n q = count (λ r. r.id == n) q

pub in_progress-ids_of :
    (n : ℕ) (m : List (ℕ × ConnInfo)) → count (λ p. p.1 == n) (ids_of m) ≡ in_progress n m
in_progress-ids_of n [] = refl
in_progress-ids_of n ((k, conn) ∷ m) = omega (arith, in_progress-ids_of n m)

pub ids_of-append : (m n : List (ℕ × ConnInfo)) → ids_of (m ++ n) ≡ ids_of m ++ ids_of n
ids_of-append [] n = refl
ids_of-append ((k, conn) ∷ m) n = ap (λ l. (k, conn.id) ∷ l) (ids_of-append m n)

-- A transfer that is found and erased is counted once.
pub count-ids_of-erase :
    (test : ℕ × ℕ → Bool) (k : ℕ) (conn : ConnInfo) (m : List (ℕ × ConnInfo))
    → lookup ◌==◌ k m ≡ some conn
    → count test (ids_of m)
      ≡ (if test (k, conn.id) then 1 else 0) + count test (ids_of (erase ◌==◌ k m))
unfolding lookup erase
count-ids_of-erase test k conn [] h = cc
count-ids_of-erase test k conn ((j, v) ∷ m) h = elim (Bool-cases (j == k)) [
  | inl same ↦
      let found : v ≡ conn = cc (rw same at h) in
      let key : j ≡ k = (==_iff j k).0 same in rw (same, found, key) refl
  | inr differ ↦
      let rest = count-ids_of-erase test k conn m (rw differ at h) in
      rw differ (omega (arith, rest))
]

-- The requests with an id that are in progress or whose responses wait.
abbrev pub outstanding : ℕ → Core → ℕ
outstanding n c = count (λ p. p.1 == n) c.0 + answered n c.2

module _ {K : Type 0} where
  complete-outstanding :
      (n easy : ℕ) (is_ok : Bool) (o : Option ConnInfo) (c : HttpClient K)
      → lookup ◌==◌ easy c.transfers ≡ o
      → outstanding n (core (complete easy is_ok o c)) ≡ outstanding n (core c)
  unfolding complete notify_respose_available
  complete-outstanding n easy is_ok none c h = refl
  complete-outstanding n easy is_ok (some conn) c h =
      let erased = count-ids_of-erase (λ p. p.1 == n) easy conn c.transfers h in
      let queued = count-append (λ r. r.id == n) c.response_queue (response_of conn is_ok ∷ []) in
      elim (Bool-cases (is_negative c.respose_notifier_fd)) [
        | inl unset ↦ rw unset (omega (arith, erased, queued))
        | inr valid ↦ rw valid (omega (arith, erased, queued))
      ]

  pub check_multi_info-outstanding :
      (n : ℕ) (ms : List Message) (c : HttpClient K)
      → outstanding n (core (check_multi_info ms c)) ≡ outstanding n (core c)
  unfolding check_multi_info
  check_multi_info-outstanding n [] c = refl
  check_multi_info-outstanding n (done easy is_ok ∷ ms) c =
      check_multi_info-outstanding n ms _
      ∙ complete-outstanding n easy is_ok (lookup ◌==◌ easy c.transfers) c refl
  check_multi_info-outstanding n (other_message ∷ ms) c = check_multi_info-outstanding n ms c

module _ {K : Type 0} (epoll_ctl : EpollOp → ℤ → K → ℤ × K) where
  added-outstanding :
      (n easy : ℕ) (m : List (ℕ × ConnInfo)) (conn : ConnInfo)
      → count (λ p. p.1 == n) (ids_of (m ++ ((easy, conn) ∷ [])))
        ≡ count (λ p. p.1 == n) (ids_of m) + (if conn.id == n then 1 else 0)
  added-outstanding n easy m conn =
      rw (ids_of-append m ((easy, conn) ∷ []))
        (omega (arith, count-append (λ p. p.1 == n) (ids_of m) ((easy, conn.id) ∷ [])))

  add_handle-outstanding :
      (n easy : ℕ) (xs : List Callback) (curl : Curl) (r : HttpRequest) (s : Setup)
      (c : HttpClient K)
      → let (outcome, after) = add_handle epoll_ctl xs r easy curl s c in
        outstanding n (core after)
        ≡ outstanding n (core c) + count (λ i. i == n) (id_if_accepted outcome r.id)
  add_handle-outstanding n easy xs curl r (inl text) c = omega arith
  add_handle-outstanding n easy xs curl r (inr os) c = elim (Bool-cases curl.add_handle) [
    | inl added ↦ rw added (
        let same = ap (outstanding n) (run_callbacks-core epoll_ctl xs _) in
        let more =
          added-outstanding n easy c.transfers
            (record { id = r.id; options = os; error = []; response = [] }) in
        same ∙ omega (arith, more))
    | inr failed ↦ rw failed (omega arith)
  ]

  pub make_with-outstanding :
      (n : ℕ) (xs : List Callback) (curl : Curl) (r : HttpRequest) (o : Option ℕ) (c : HttpClient K)
      → let (outcome, after) = make_with epoll_ctl xs r curl o c in
        outstanding n (core after)
        ≡ outstanding n (core c) + count (λ i. i == n) (id_if_accepted outcome r.id)
  make_with-outstanding n xs curl r none c = omega arith
  make_with-outstanding n xs curl r (some easy) c =
      add_handle-outstanding n easy xs curl r (setup curl r) c

  -- All requests with an id that were accepted and not lost.
  abbrev tally : ℕ → HttpClient K × List HttpResponse → ℕ
  tally n (c, log) = outstanding n (core c) + answered n log

  hand_all-keep : (q log : List HttpResponse) → hand_all keep_response q log ≡ log ++ q
  hand_all-keep [] log = sym (append-nil log)
  hand_all-keep (r ∷ q) log = hand_all-keep q (log ++ (r ∷ [])) ∙ append_assoc log (r ∷ []) q

  notifier-unset :
      (c : HttpClient K) (log : List HttpResponse)
      → is_negative c.respose_notifier_fd ≡ true
      → respose_notifier_event_handler keep_response (c, log) ≡ (c, log)
  unfolding respose_notifier_event_handler
  notifier-unset c log unset = rw unset refl

  notifier-tally :
      (n : ℕ) (c : HttpClient K) (log : List HttpResponse)
      → tally n (respose_notifier_event_handler keep_response (c, log)) ≡ tally n (c, log)
  notifier-tally n c log = elim (Bool-cases (is_negative c.respose_notifier_fd)) [
    | inl unset ↦ ap (tally n) (notifier-unset c log unset)
    | inr valid ↦
        let handed = respose_notifier_event_handler-hand_all keep_response c log valid in
        let kept = hand_all-keep c.response_queue log in
        let both = count-append (λ r. r.id == n) log c.response_queue in
        rw (handed, kept) (omega (arith, both))
  ]

  event-tally :
      (n : ℕ) (read : TimerRead) (multi : Multi) (fd : ℤ) (ev : Events) (c : HttpClient K)
      (log : List HttpResponse)
      → tally n (handle_event epoll_ctl keep_response read multi fd ev (c, log)) ≡ tally n (c, log)
  event-tally n read multi fd ev c log =
      handle_event-keeps epoll_ctl keep_response
        (λ d l. outstanding n d + answered n l ≡ tally n (c, log))
        (λ l ms d p. ap (λ i. i + answered n l) (check_multi_info-outstanding n ms d) ∙ p)
        (λ d l p. notifier-tally n d l ∙ p) read multi fd ev c log refl

  step-tally :
      (n : ℕ) (x : ClientStep) (w : HttpClient K × List HttpResponse)
      → tally n (step epoll_ctl x w) ≡ tally n w + count (λ i. i == n) (accepted_id epoll_ctl x w.0)
  unfolding make_request
  step-tally n (request xs curl r) (c, log) =
      omega (arith, make_with-outstanding n xs curl r curl.easy_init c)
  step-tally n (event read multi fd ev) (c, log) =
      omega (arith, event-tally n read multi fd ev c log)

  run-tally_all :
      (n : ℕ) (xs : List ClientStep) (w : HttpClient K × List HttpResponse)
      → tally n (run epoll_ctl xs w) ≡ tally n w + count (λ i. i == n) (accepted_ids epoll_ctl xs w)
  run-tally_all n [] w = omega arith
  run-tally_all n (x ∷ xs) w = omega (
    arith,
    run-tally_all n xs (step epoll_ctl x w),
    step-tally n x w,
    count-append (λ i. i == n) (accepted_id epoll_ctl x w.0)
        (accepted_ids epoll_ctl xs (step epoll_ctl x w)),
  )

  -- Over any sequence of requests and events from a client without transfers and responses,
  -- whatever libcurl does, the requests with an id that were accepted are as many as the transfers
  -- with it in progress, its responses in the queue, and its responses handed over: none is lost,
  -- and none is answered twice.
  pub run-tally :
      (n : ℕ) (xs : List ClientStep) (c : HttpClient K)
      → c.transfers ≡ []
      → c.response_queue ≡ []
      → let (after, handed) = run epoll_ctl xs (c, []) in
        in_progress n after.transfers + answered n after.response_queue + answered n handed
        ≡ count (λ i. i == n) (accepted_ids epoll_ctl xs (c, []))
  run-tally n xs c no_transfers no_responses =
      let after = (run epoll_ctl xs (c, [])).0 in
      let all = run-tally_all n xs (c, []) in
      let start : tally n (c, []) ≡ 0 =
        ap (λ m. count (λ p. p.1 == n) (ids_of m) + answered n c.response_queue + 0) no_transfers
        ∙ ap (λ q. 0 + answered n q + 0) no_responses in
      omega (arith, in_progress-ids_of n after.transfers, all, start)
