-- ===== src/Dispatcher/Owner.antt =====
-- Which handler the dispatcher gives an event to, and which handlers it knows.
use yeti_lnp_resolver.Base.{
  ◌≡◌, ◌≢◌, refl, ℕ, Bool, true, false, ==_iff, some, List, [], ◌∷◌, ◌++◌, negsuc, is_negative, All,
  arith,
}
use yeti_lnp_resolver.EventHandler.{is_can_handle}
use yeti_lnp_resolver.Dispatcher.{
  Event, Handler, dispatch, Dispatcher, register_handler, unregister_handler, erase_handler,
}

module _ {S : Type 0} where
  abbrev pub Declines : Event → S → Handler S → Type 0
  Declines e s h = is_can_handle e.fd e.events (h.events_of s) ≡ false

  -- An event goes to the first handler that can handle it, once, whichever handlers stand behind.
  dispatch-first :
      (e : Event) (front back : List (Handler S)) (h : Handler S) (s : S) (stop : Bool)
      → All (Declines e s) front
      → is_can_handle e.fd e.events (h.events_of s) ≡ true
      → dispatch e (front ++ (h ∷ back)) (s, stop) ≡ h.handle_event e.fd e.events (s, stop)
  unfolding dispatch
  dispatch-first e [] back h s stop declined able = rw able refl
  dispatch-first e (g ∷ front) back h s stop declined able =
      rw declined.0 (dispatch-first e front back h s stop declined.1 able)

  -- An event that no handler can handle changes nothing.
  dispatch-none :
      (e : Event) (hs : List (Handler S)) (s : S) (stop : Bool)
      → All (Declines e s) hs
      → dispatch e hs (s, stop) ≡ (s, stop)
  unfolding dispatch
  dispatch-none e [] s stop declined = refl
  dispatch-none e (g ∷ hs) s stop declined = rw declined.0 (dispatch-none e hs s stop declined.1)

erase_handler-snoc :
    (h : ℕ) (hs : List ℕ) → All (λ p. p ≢ h) hs → erase_handler h (hs ++ (h ∷ [])) ≡ hs
erase_handler-snoc h [] differ = ground (arith, ==_iff h h)
erase_handler-snoc h (p ∷ hs) differ =
    ground (arith, ==_iff p h, differ.0, erase_handler-snoc h hs differ.1)

-- A handler that was not registered, and is registered and unregistered again, leaves the list of
-- handlers as it was, and ends without a descriptor of epoll; any other keeps its own.
unregister_handler-register_handler :
    (h p : ℕ) (d : Dispatcher)
    → is_negative d.epoll_fd ≡ false
    → All (λ q. q ≢ h) d.handlers
    → p ≢ h
    → let e = (unregister_handler (some h) (register_handler (some h) d).1).1 in
      (e.handlers ≡ d.handlers) × (e.epoll_of h ≡ negsuc 0) × (e.epoll_of p ≡ d.epoll_of p)
unfolding register_handler unregister_handler
unregister_handler-register_handler h p d valid fresh differ = rw valid (
  erase_handler-snoc h d.handlers fresh,
  ground (arith, ==_iff h h),
  ground (arith, ==_iff p h, differ),
)
