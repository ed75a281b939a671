-- ===== src/HttpClient/Handles.antt =====
-- The easy handles that `AsyncHttpClient` creates and never cleans up.
use yeti_lnp_resolver.Base.{
  ◌≡◌, refl, sym, inl, inr, ℕ, ◌+◌, ◌≤◌, Bool, Option, none, some, List, [], ◌∷◌, ◌++◌, ◌==◌,
  ==_iff, ℤ, is_negative, if◌then◌else◌, Bool-cases, arith,
}
use mathlib.Core.Path.{subst}
use yeti_lnp_resolver.Base.Assoc.{lookup, erase}
use yeti_lnp_resolver.Base.Counting.{count, count-append}
use yeti_lnp_resolver.Types.{HttpRequest, HttpResponse}
use yeti_lnp_resolver.Resolver.State.{HttpOutcome, accepted}
use yeti_lnp_resolver.EventHandler.{EpollOp, EventHandler}
use yeti_lnp_resolver.HttpClient.Setup.{Curl, Setup, setup}
use yeti_lnp_resolver.HttpClient.Transfers.{
  ConnInfo, HttpClient, Callback, Message, done, other_message, notify_respose_available, complete,
  check_multi_info, erase_handle,
}
use yeti_lnp_resolver.HttpClient.State.{
  add_handle, make_with, make_request, respose_notifier_event_handler, new_client,
}
use yeti_lnp_resolver.HttpClient.Core.{Core, core, ids_of, run_callbacks-core, handle_event-keeps}
use yeti_lnp_resolver.HttpClient.Tally.{
  ClientStep, request, event, keep_response, step, run, count-ids_of-erase, ids_of-append,
}

-- The easy handle of a request that failed after its creation.
abbrev pub handle_if_failed : HttpOutcome → Option ℕ → List ℕ
handle_if_failed accepted o = []
handle_if_failed _ none = []
handle_if_failed _ (some easy) = easy ∷ []

module _ {K : Type 0} (epoll_ctl : EpollOp → ℤ → K → ℤ × K) where
  abbrev pub failed_handle : ClientStep → HttpClient K → List ℕ
  failed_handle (request xs curl r) c =
      handle_if_failed (make_request epoll_ctl xs curl r c).0 curl.easy_init
  failed_handle (event read multi fd ev) c = []

  -- The easy handles of the requests that failed in a run.
  abbrev pub failed_handles : List ClientStep → HttpClient K × List HttpResponse → List ℕ
  failed_handles [] w = []
  failed_handles (x ∷ xs) w = failed_handle x w.0 ++ failed_handles xs (step epoll_ctl x w)

-- How many transfers in progress have an easy handle.
abbrev pub transfers_of : ℕ → List (ℕ × ConnInfo) → ℕ
transfers_of k [] = 0
transfers_of k ((j, conn) ∷ m) = (if j == k then 1 else 0) + transfers_of k m

transfers_of-ids_of :
    (k : ℕ) (m : List (ℕ × ConnInfo)) → count (λ p. p.0 == k) (ids_of m) ≡ transfers_of k m
transfers_of-ids_of k [] = refl
transfers_of-ids_of k ((j, conn) ∷ m) = omega (arith, transfers_of-ids_of k m)

count-erase_handle :
    (easy k : ℕ) (l : List ℕ)
    → 1 ≤ count (λ j. j == easy) l
    → count (λ j. j == k) l
      ≡ (if easy == k then 1 else 0) + count (λ j. j == k) (erase_handle easy l)
count-erase_handle easy k [] h = absurd (omega arith)
count-erase_handle easy k (j ∷ l) h = elim (Bool-cases (j == easy)) [
  | inl same ↦ let key : j ≡ easy = (==_iff j easy).0 same in rw (same, key) refl
  | inr differ ↦
      let still : 1 ≤ count (λ i. i == easy) l = omega (arith, (rw differ at h)) in
      let rest = count-erase_handle easy k l still in rw differ (omega (arith, rest))
]

-- The handles that are not cleaned up are those of the transfers in progress, and some that leaked.
abbrev IsOwned : (ℕ → ℕ) → Core → Type 0
IsOwned leaked c = (k : ℕ) → count (λ j. j == k) c.1 ≡ count (λ p. p.0 == k) c.0 + leaked k

module _ {K : Type 0} (leaked : ℕ → ℕ) where
  complete-IsOwned :
      (easy : ℕ) (is_ok : Bool) (o : Option ConnInfo) (c : HttpClient K)
      → lookup ◌==◌ easy c.transfers ≡ o
      → IsOwned leaked (core c)
      → IsOwned leaked (core (complete easy is_ok o c))
  unfolding complete notify_respose_available
  complete-IsOwned easy is_ok none c found a = a
  complete-IsOwned easy is_ok (some conn) c found a =
      let after : (k : ℕ)
          → count (λ j. j == k) (erase_handle easy c.easy_handles)
            ≡ count (λ p. p.0 == k) (ids_of (erase ◌==◌ easy c.transfers)) + leaked k =
        λ k. owned k in
      elim (Bool-cases (is_negative c.respose_notifier_fd)) [
        | inl unset ↦ rw unset after
        | inr valid ↦ rw valid after
      ]
    where
      present : 1 ≤ count (λ j. j == easy) c.easy_handles
      present =
          let at_easy = count-ids_of-erase (λ p. p.0 == easy) easy conn c.transfers found in
          ground (arith, a easy, at_easy, ==_iff easy easy)

      owned :
          (k : ℕ)
          → count (λ j. j == k) (erase_handle easy c.easy_handles)
            ≡ count (λ p. p.0 == k) (ids_of (erase ◌==◌ easy c.transfers)) + leaked k
      owned k = omega (
        arith,
        a k,
        count-ids_of-erase (λ p. p.0 == k) easy conn c.transfers found,
        count-erase_handle easy k c.easy_handles present,
      )

  check_multi_info-IsOwned :
      (ms : List Message) (c : HttpClient K)
      → IsOwned leaked (core c)
      → IsOwned leaked (core (check_multi_info ms c))
  unfolding check_multi_info
  check_multi_info-IsOwned [] c a = a
  check_multi_info-IsOwned (done easy is_ok ∷ ms) c a =
      check_multi_info-IsOwned ms _
        (complete-IsOwned easy is_ok (lookup ◌==◌ easy c.transfers) c refl a)
  check_multi_info-IsOwned (other_message ∷ ms) c a = check_multi_info-IsOwned ms c a

  notifier-IsOwned :
      (c : HttpClient K) (log : List HttpResponse)
      → IsOwned leaked (core c)
      → IsOwned leaked (core (respose_notifier_event_handler keep_response (c, log)).0)
  unfolding respose_notifier_event_handler
  notifier-IsOwned c log a = elim (Bool-cases (is_negative c.respose_notifier_fd)) [
    | inl unset ↦ rw unset a
    | inr valid ↦ rw valid a
  ]

module _ {K : Type 0} (epoll_ctl : EpollOp → ℤ → K → ℤ × K) where
  abbrev failed_with : ℕ → List ℕ → ℕ
  failed_with k l = count (λ j. j == k) l

  add_handle-IsOwned :
      (leaked : ℕ → ℕ) (easy : ℕ) (xs : List Callback) (curl : Curl) (r : HttpRequest) (s : Setup)
      (c : HttpClient K)
      → IsOwned leaked (core c)
      → let w = add_handle epoll_ctl xs r easy curl s c in
        IsOwned (λ k. leaked k + failed_with k (handle_if_failed w.0 (some easy))) (core w.1)
  add_handle-IsOwned leaked easy xs curl r (inl text) c a = λ k. omega (arith, a k)
  add_handle-IsOwned leaked easy xs curl r (inr os) c a = elim (Bool-cases curl.add_handle) [
    | inl added ↦ rw added (
        subst (IsOwned (λ k. leaked k + 0)) (sym (run_callbacks-core epoll_ctl xs _))
          (λ k. with_transfer k))
    | inr failed ↦ rw failed (λ k. omega (arith, a k))
  ]
    where
      conn : ConnInfo
      conn = record { id = r.id; options = os; error = []; response = [] }

      with_transfer :
          (k : ℕ)
          → (if easy == k then 1 else 0) + count (λ j. j == k) c.easy_handles
            ≡ count (λ p. p.0 == k) (ids_of (c.transfers ++ ((easy, conn) ∷ []))) + (leaked k + 0)
      with_transfer k = rw (ids_of-append c.transfers ((easy, conn) ∷ [])) (
          omega (arith, a k, count-append (λ p. p.0 == k) (ids_of c.transfers) ((easy, r.id) ∷ [])))

  make_with-IsOwned :
      (leaked : ℕ → ℕ) (xs : List Callback) (curl : Curl) (r : HttpRequest) (o : Option ℕ)
      (c : HttpClient K)
      → IsOwned leaked (core c)
      → let w = make_with epoll_ctl xs r curl o c in
        IsOwned (λ k. leaked k + failed_with k (handle_if_failed w.0 o)) (core w.1)
  make_with-IsOwned leaked xs curl r none c a = λ k. omega (arith, a k)
  make_with-IsOwned leaked xs curl r (some easy) c a =
      add_handle-IsOwned leaked easy xs curl r (setup curl r) c a

  step-IsOwned :
      (leaked : ℕ → ℕ) (x : ClientStep) (w : HttpClient K × List HttpResponse)
      → IsOwned leaked (core w.0)
      → IsOwned
          (λ k. leaked k + failed_with k (failed_handle epoll_ctl x w.0))
          (core (step epoll_ctl x w).0)
  unfolding make_request
  step-IsOwned leaked (request xs curl r) (c, log) a =
      make_with-IsOwned leaked xs curl r curl.easy_init c a
  step-IsOwned leaked (event read multi fd ev) (c, log) a =
      let same : IsOwned leaked (core (step epoll_ctl (event read multi fd ev) (c, log)).0) =
        handle_event-keeps epoll_ctl keep_response (λ d l. IsOwned leaked d)
          (λ l ms d p. check_multi_info-IsOwned leaked ms d p)
          (λ d l p. notifier-IsOwned leaked d l p) read multi fd ev c log a in
      λ k. omega (arith, same k)

  run-IsOwned :
      (leaked : ℕ → ℕ) (xs : List ClientStep) (w : HttpClient K × List HttpResponse)
      → IsOwned leaked (core w.0)
      → IsOwned
          (λ k. leaked k + failed_with k (failed_handles epoll_ctl xs w))
          (core (run epoll_ctl xs w).0)
  run-IsOwned leaked [] w a = λ k. omega (arith, a k)
  run-IsOwned leaked (x ∷ xs) w a = λ k. omega (
    arith,
    run-IsOwned (λ k. leaked k + failed_with k (failed_handle epoll_ctl x w.0)) xs
        (step epoll_ctl x w) (step-IsOwned leaked x w a) k,
    count-append (λ j. j == k) (failed_handle epoll_ctl x w.0)
        (failed_handles epoll_ctl xs (step epoll_ctl x w)),
  )

  -- After any sequence of requests and events of a new client, the easy handles that were created
  -- and not cleaned up are those of the transfers in progress and, for good, those of the requests
  -- that failed after the handle's creation, each as often as it was created.
  pub run-easy_handles :
      (timer notifier : ℤ) (h : EventHandler K) (xs : List ClientStep) (k : ℕ)
      → let start : HttpClient K × List HttpResponse =
          (new_client epoll_ctl timer notifier h, []) in
        let c = (run epoll_ctl xs start).0 in
        count (λ j. j == k) c.easy_handles
        ≡ transfers_of k c.transfers + count (λ j. j == k) (failed_handles epoll_ctl xs start)
  unfolding new_client
  run-easy_handles timer notifier h xs k =
      let start : HttpClient K × List HttpResponse = (new_client epoll_ctl timer notifier h, []) in
      let owned = run-IsOwned (λ k. 0) xs start (λ k. refl) k in
      omega (arith, owned, transfers_of-ids_of k (run epoll_ctl xs start).0.transfers)
