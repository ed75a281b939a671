-- ===== src/HttpClient/Drain.antt =====
-- The loop of `AsyncHttpClient::respose_notifier_event_handler` over the queue of responses.
use yeti_lnp_resolver.Base.{
  ◌≡◌, refl, ℕ, zero, suc, ◌≤◌, false, Option, List, [], ◌∷◌, is_negative, length, arith,
}
use yeti_lnp_resolver.Types.{HttpResponse}
use yeti_lnp_resolver.HttpClient.Transfers.{HttpClient}
use yeti_lnp_resolver.HttpClient.State.{hand_over, drain, respose_notifier_event_handler}

module _ {H : Type 0} (f : Option (HttpResponse → H → H)) where
  -- Every response is handed over, in the order of the queue.
  abbrev pub hand_all : List HttpResponse → H → H
  hand_all [] h = h
  hand_all (r ∷ q) h = hand_all q (hand_over f r h)

  drain-hand_all :
      (fuel : ℕ) (q : List HttpResponse) (h : H)
      → length q ≤ fuel
      → drain f fuel q h ≡ ([], hand_all q h)
  unfolding drain
  drain-hand_all zero [] h enough = refl
  drain-hand_all (suc fuel) [] h enough = refl
  drain-hand_all zero (r ∷ q) h enough = absurd (omega arith)
  drain-hand_all (suc fuel) (r ∷ q) h enough = drain-hand_all fuel q _ (omega arith)

  -- With a valid eventfd the loop of the notifier's handler ends, within as many rounds as there
  -- are responses: the queue is empty, its counter is reset, and every response was handed over
  -- once, in order.
  pub respose_notifier_event_handler-hand_all :
      {K : Type 0} (c : HttpClient K) (h : H)
      → is_negative c.respose_notifier_fd ≡ false
      → respose_notifier_event_handler f (c, h)
        ≡ (record c { notified = 0; response_queue = [] }, hand_all c.response_queue h)
  unfolding respose_notifier_event_handler
  respose_notifier_event_handler-hand_all c h valid =
      rw (valid, drain-hand_all (length c.response_queue) c.response_queue h (omega arith)) refl
