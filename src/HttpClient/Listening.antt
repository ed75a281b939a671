-- ===== src/HttpClient/Listening.antt =====
-- The eventfd of `AsyncHttpClient` in its `events_map`: the constructor puts it there, and libcurl's
-- sockets, which have other descriptors, leave it there.
use yeti_lnp_resolver.Base.{
  ◌≡◌, refl, ap, ◌∙◌, inl, inr, ℕ, false, Option, none, some, List, [], ◌∷◌, ℤ, pos, eq_ℤ, eq_ℤ_iff,
  is_negative, Bool-cases, All, arith,
}
use yeti_lnp_resolver.Base.Assoc.{lookup, lookup-All, lookup-erase_other, erase-All}
use yeti_lnp_resolver.EventHandler.{
  Events, EpollOp, ctl_add, ctl_mod, EventHandler, assigned, link, modify_found, modify_link,
  unlink,
}
use yeti_lnp_resolver.EventHandler.Registered.{lookup-assign}
use yeti_lnp_resolver.Dispatcher.{input_events}
use yeti_lnp_resolver.HttpClient.Transfers.{
  Poll, poll_none, poll_in, poll_out, poll_inout, poll_remove, SockInfo, HttpClient, Callback,
  socket_callback, timer_callback, write_callback, error_text, write_cb, write_error,
  set_timer_value,
}
use yeti_lnp_resolver.HttpClient.Sockets.{
  socket_events, set_sock, rem_sock, set_or_add, socket_cb, run_callback, run_callbacks,
}
use yeti_lnp_resolver.HttpClient.State.{Select, new_client}
use yeti_lnp_resolver.HttpClient.Tally.{ClientStep, request, event}

-- libcurl's callback is for another descriptor than n.
abbrev pub Avoids : ℤ → Callback → Type 0
Avoids n (socket_callback easy fd what) = eq_ℤ fd n ≡ false
Avoids n _ = Unit {0}

abbrev pub AvoidsAll : ℤ → ClientStep → Type 0
AvoidsAll n (request xs curl r) = All (Avoids n) xs
AvoidsAll n (event read multi fd ev) =
    (d : ℤ) (select : Select) → All (Avoids n) (multi d select).callbacks

module _ {K : Type 0} (epoll_ctl : EpollOp → ℤ → K → ℤ × K) (n : ℤ) where
  abbrev pub At : EventHandler K → Option Events
  At h = lookup eq_ℤ n h.events_map

  assigned-other :
      (fd : ℤ) (ev : Events) (w : ℤ × K) (h : EventHandler K)
      → eq_ℤ fd n ≡ false
      → At (assigned fd ev w h).1 ≡ At h
  assigned-other fd ev w h ne = elim (Bool-cases (eq_ℤ w.0 (pos 0))) [
    | inl ok ↦ rw ok (lookup-assign fd n ev h.events_map ∙ rw ne refl)
    | inr failed ↦ rw failed refl
  ]

  link-other :
      (fd : ℤ) (ev : Events) (h : EventHandler K)
      → eq_ℤ fd n ≡ false
      → At (link epoll_ctl fd ev h).1 ≡ At h
  unfolding link
  link-other fd ev h ne = elim (Bool-cases (is_negative h.epoll_fd)) [
    | inl unset ↦ rw unset refl
    | inr set ↦ rw set (assigned-other fd ev (epoll_ctl (ctl_add ev) fd h.kernel) h ne)
  ]

  modify_link-other :
      (fd : ℤ) (ev : Events) (h : EventHandler K)
      → eq_ℤ fd n ≡ false
      → At (modify_link epoll_ctl fd ev h).1 ≡ At h
  unfolding modify_link
  modify_link-other fd ev h ne = found (lookup eq_ℤ fd h.events_map)
    where
      found : (o : Option Events) → At (modify_found epoll_ctl fd ev h o).1 ≡ At h
      found none = link-other fd ev h ne
      found (some old) = elim (Bool-cases (is_negative h.epoll_fd)) [
        | inl unset ↦ rw unset refl
        | inr set ↦ rw set (assigned-other fd ev (epoll_ctl (ctl_mod ev) fd h.kernel) h ne)
      ]

  unlink-other :
      (fd : ℤ) (h : EventHandler K) → eq_ℤ fd n ≡ false → At (unlink epoll_ctl fd h).1 ≡ At h
  unfolding unlink
  unlink-other fd h ne = elim (Bool-cases (is_negative h.epoll_fd)) [
    | inl unset ↦ rw unset refl
    | inr set ↦ rw set (lookup-erase_other eq_ℤ eq_ℤ_iff fd n h.events_map ne)
  ]

  -- The descriptor n is linked for input, and no socket of libcurl has it.
  abbrev pub IsOther : ℤ × SockInfo → Type 0
  IsOther (fd, info) = eq_ℤ info.sock_fd n ≡ false

  abbrev pub IsListening : HttpClient K → Type 0
  IsListening c = (At c.base ≡ some input_events) × All IsOther c.sockets

  set_sock-IsListening :
      (old_fd sock_fd : ℤ) (easy : ℕ) (what : Poll) (c : HttpClient K)
      → (eq_ℤ old_fd (pos 0) ≡ false → eq_ℤ old_fd n ≡ false)
      → eq_ℤ sock_fd n ≡ false
      → IsListening c
      → IsListening (set_sock epoll_ctl old_fd sock_fd easy what c)
  unfolding set_sock
  set_sock-IsListening old_fd sock_fd easy what c ne nf (on, others) = (
    elim (Bool-cases (eq_ℤ old_fd (pos 0))) [
      | inl new ↦ rw new (link-other sock_fd (socket_events what) c.base nf ∙ on)
      | inr old ↦ rw old (modify_link-other old_fd (socket_events what) c.base (ne old) ∙ on)
    ],
    (nf, erase-All eq_ℤ IsOther sock_fd c.sockets others),
  )

  rem_sock-IsListening :
      (fd : ℤ) (o : Option SockInfo) (c : HttpClient K)
      → ((info : SockInfo) → o ≡ some info → eq_ℤ info.sock_fd n ≡ false)
      → IsListening c
      → IsListening (rem_sock epoll_ctl fd o c)
  unfolding rem_sock
  rem_sock-IsListening fd none c ne l = l
  rem_sock-IsListening fd (some info) c ne (on, others) = (
    elim (Bool-cases (eq_ℤ info.sock_fd (pos 0))) [
      | inl new ↦ rw new on
      | inr old ↦ rw old (unlink-other info.sock_fd c.base (ne info refl) ∙ on)
    ],
    erase-All eq_ℤ IsOther fd c.sockets others,
  )

  set_or_add-IsListening :
      (fd : ℤ) (easy : ℕ) (what : Poll) (o : Option SockInfo) (c : HttpClient K)
      → ((info : SockInfo) → o ≡ some info → eq_ℤ info.sock_fd n ≡ false)
      → eq_ℤ fd n ≡ false
      → IsListening c
      → IsListening (set_or_add epoll_ctl fd easy what o c)
  set_or_add-IsListening fd easy what none c ne nf l =
      set_sock-IsListening (pos 0) fd easy what c (λ e. cc) nf l
  set_or_add-IsListening fd easy what (some info) c ne nf l =
      set_sock-IsListening info.sock_fd fd easy what c (λ e. ne info refl) nf l

  socket_cb-IsListening :
      (easy : ℕ) (fd : ℤ) (what : Poll) (o : Option SockInfo) (c : HttpClient K)
      → ((info : SockInfo) → o ≡ some info → eq_ℤ info.sock_fd n ≡ false)
      → eq_ℤ fd n ≡ false
      → IsListening c
      → IsListening (socket_cb epoll_ctl easy fd what o c)
  unfolding socket_cb
  socket_cb-IsListening easy fd poll_none o c ne nf l = l
  socket_cb-IsListening easy fd poll_remove o c ne nf l = rem_sock-IsListening fd o c ne l
  socket_cb-IsListening easy fd poll_in o c ne nf l =
      set_or_add-IsListening fd easy poll_in o c ne nf l
  socket_cb-IsListening easy fd poll_out o c ne nf l =
      set_or_add-IsListening fd easy poll_out o c ne nf l
  socket_cb-IsListening easy fd poll_inout o c ne nf l =
      set_or_add-IsListening fd easy poll_inout o c ne nf l

  pub set_timer_value-IsListening :
      (ms : ℤ) (c : HttpClient K) → IsListening c → IsListening (set_timer_value ms c)
  unfolding set_timer_value
  set_timer_value-IsListening ms c l = elim (Bool-cases (is_negative c.timer_fd)) [
    | inl unset ↦ rw unset l
    | inr valid ↦ rw valid l
  ]

  run_callback-IsListening :
      (x : Callback) (c : HttpClient K)
      → Avoids n x
      → IsListening c
      → IsListening (run_callback epoll_ctl x c)
  unfolding run_callback write_cb write_error
  run_callback-IsListening (socket_callback easy fd what) c a l =
      socket_cb-IsListening easy fd what (lookup eq_ℤ fd c.sockets) c
        (λ info e. lookup-All eq_ℤ eq_ℤ_iff IsOther fd info c.sockets l.1 e) a l
  run_callback-IsListening (timer_callback ms) c a l = set_timer_value-IsListening ms c l
  run_callback-IsListening (write_callback easy chunk) c a l = l
  run_callback-IsListening (error_text easy text) c a l = l

  pub run_callbacks-IsListening :
      (xs : List Callback) (c : HttpClient K)
      → All (Avoids n) xs
      → IsListening c
      → IsListening (run_callbacks epoll_ctl xs c)
  unfolding run_callbacks
  run_callbacks-IsListening [] c a l = l
  run_callbacks-IsListening (x ∷ xs) c a l =
      run_callbacks-IsListening xs (run_callback epoll_ctl x c) a.1
        (run_callback-IsListening x c a.0 l)

  link-epoll_fd :
      (fd : ℤ) (ev : Events) (h : EventHandler K) → (link epoll_ctl fd ev h).1.epoll_fd ≡ h.epoll_fd
  unfolding link
  link-epoll_fd fd ev h = ground arith

  -- `epoll_ctl` adds the descriptor.
  abbrev pub IsAddable : Type 0
  IsAddable = (k : K) → (epoll_ctl (ctl_add input_events) n k).0 ≡ pos 0

  link-At :
      (h : EventHandler K)
      → is_negative h.epoll_fd ≡ false
      → IsAddable
      → At (link epoll_ctl n input_events h).1 ≡ some input_events
  unfolding link
  link-At h set adds =
      rw (set, adds h.kernel)
        (lookup-assign n n input_events h.events_map ∙ ground (arith, eq_ℤ_iff n n))

  pub new_client-IsListening :
      (timer : ℤ) (h : EventHandler K)
      → is_negative n ≡ false
      → is_negative h.epoll_fd ≡ false
      → IsAddable
      → IsListening (new_client epoll_ctl timer n h)
  unfolding new_client
  new_client-IsListening timer h valid set adds = elim (Bool-cases (is_negative timer)) [
    | inl unset ↦ rw (unset, valid) (link-At h set adds, tt)
    | inr timed ↦
        rw (timed, valid)
          (
            link-At (link epoll_ctl timer input_events h).1
                (ap is_negative (link-epoll_fd timer input_events h) ∙ set) adds,
            tt,
          )
  ]
