-- ===== src/Transport/Sockets.antt =====
-- src/transport/Transport.cpp: the descriptors that `init_sock` opens and `shutdown_endpoints`
-- closes. The system calls are arguments, functions on the kernel's state.
use yeti_lnp_resolver.Base.{
  ◌≡◌, refl, ◌∙◌, inl, inr, Bool, true, false, Option, none, some, List, [], ◌∷◌, ℤ, pos, negsuc,
  eq_ℤ, eq_ℤ_iff, is_negative, if◌then◌else◌, Bool-cases, arith,
}
use yeti_lnp_resolver.Base.Assoc.{lookup}
use yeti_lnp_resolver.EventHandler.{Events, EpollOp, ctl_add, EventHandler, link}
use yeti_lnp_resolver.Dispatcher.{input_events}

-- `socket(PF_INET, SOCK_DGRAM, 0)`, `shutdown(fd, SHUT_RDWR)` and `close(fd)`.
pub record SocketCalls (K : Type 0) : Type 0 where
  pub socket : K → ℤ × K
  pub shutdown : ℤ → K → K
  pub close : ℤ → K → K

-- The callback is run on each entry, with the state that it changes.
unfoldable pub iterate_events_map : {S : Type 0} → (ℤ → Events → S → S) → List (ℤ × Events) → S → S
iterate_events_map callback [] s = s
iterate_events_map callback ((fd, ev) ∷ m) s = iterate_events_map callback m (callback fd ev s)

module _ {K : Type 0} (calls : SocketCalls K) where
  unfoldable pub shutdown_endpoints : EventHandler K → EventHandler K
  unfolding iterate_events_map
  shutdown_endpoints h =
      let close_endpoint : ℤ → Events → K → K = λ fd ev k. calls.close fd (calls.shutdown fd k) in
      record h { kernel = iterate_events_map close_endpoint h.events_map h.kernel }

  -- What follows `link` in `init_sock`.
  abbrev pub close_unlinked : ℤ → ℤ × EventHandler K → ℤ × EventHandler K
  close_unlinked fd (res, h) =
      if eq_ℤ res (pos 0)
      then (fd, h)
      else (negsuc 0, record h { kernel = calls.close fd h.kernel })

  module _ (epoll_ctl : EpollOp → ℤ → K → ℤ × K) where
    abbrev pub link_socket : ℤ × K → EventHandler K → ℤ × EventHandler K
    link_socket (fd, k) h =
        let opened : EventHandler K = record h { kernel = k } in
        if is_negative fd
        then (fd, opened)
        else close_unlinked fd (link epoll_ctl fd input_events opened)

    unfoldable pub init_sock : EventHandler K → ℤ × EventHandler K
    init_sock h = link_socket (calls.socket h.kernel) h

-- The result of `lookup` as a test.
abbrev pub is_present : Option Events → Bool
is_present none = false
is_present (some ev) = true

-- What the manual pages document of the descriptors that are open: `socket` opens one that was
-- not, `close` closes one, and the other calls open and close none.
pub record SocketLaws (K : Type 0) (calls : SocketCalls K) (epoll_ctl : EpollOp → ℤ → K → ℤ × K)
    (is_open : K → ℤ → Bool) : Type 0 where
  pub refused :
      (k : K) (j : ℤ)
      → is_negative (calls.socket k).0 ≡ true
      → is_open (calls.socket k).1 j ≡ is_open k j
  pub opened :
      (k : K) (j : ℤ)
      → is_negative (calls.socket k).0 ≡ false
      → is_open (calls.socket k).1 j ≡ (if eq_ℤ (calls.socket k).0 j then true else is_open k j)
  pub fresh :
      (k : K) → is_negative (calls.socket k).0 ≡ false → is_open k (calls.socket k).0 ≡ false
  pub closed :
      (fd j : ℤ) (k : K) → is_open (calls.close fd k) j ≡ (if eq_ℤ fd j then false else is_open k j)
  pub shut : (fd j : ℤ) (k : K) → is_open (calls.shutdown fd k) j ≡ is_open k j
  pub controlled : (op : EpollOp) (fd j : ℤ) (k : K) → is_open (epoll_ctl op fd k).1 j ≡ is_open k j

module _ {K : Type 0} (calls : SocketCalls K) (epoll_ctl : EpollOp → ℤ → K → ℤ × K)
    (is_open : K → ℤ → Bool) (laws : SocketLaws K calls epoll_ctl is_open) where
  close_each-open :
      (m : List (ℤ × Events)) (k : K) (j : ℤ)
      → is_open (iterate_events_map (λ fd ev c. calls.close fd (calls.shutdown fd c)) m k) j
        ≡ (if is_present (lookup eq_ℤ j m) then false else is_open k j)
  unfolding iterate_events_map lookup
  close_each-open [] k j = refl
  close_each-open ((fd, ev) ∷ m) k j =
      close_each-open m (calls.close fd (calls.shutdown fd k)) j
      ∙ ground (arith, laws.closed fd j (calls.shutdown fd k), laws.shut fd j k)

  -- `shutdown_endpoints` closes each descriptor of `events_map` and no other.
  shutdown_endpoints-open :
      (h : EventHandler K) (j : ℤ)
      → is_open (shutdown_endpoints calls h).kernel j
        ≡ (if is_present (lookup eq_ℤ j h.events_map) then false else is_open h.kernel j)
  unfolding shutdown_endpoints
  shutdown_endpoints-open h j = close_each-open h.events_map h.kernel j

  link-open :
      (fd : ℤ) (ev : Events) (h : EventHandler K) (j : ℤ)
      → is_open (link epoll_ctl fd ev h).1.kernel j ≡ is_open h.kernel j
  unfolding link
  link-open fd ev h j = elim (Bool-cases (is_negative h.epoll_fd)) [
    | inl unset ↦ rw unset refl
    | inr set ↦ rw set (elim (Bool-cases (eq_ℤ (epoll_ctl (ctl_add ev) fd h.kernel).0 (pos 0))) [
      | inl done ↦ rw done (laws.controlled (ctl_add ev) fd j h.kernel)
      | inr failed ↦ rw failed (laws.controlled (ctl_add ev) fd j h.kernel)
    ])
  ]

  close_unlinked-open :
      (fd : ℤ) (p : ℤ × EventHandler K) (j : ℤ)
      → is_negative fd ≡ false
      → is_negative (close_unlinked calls fd p).0 ≡ true
      → is_open (close_unlinked calls fd p).1.kernel j
        ≡ (if eq_ℤ fd j then false else is_open p.1.kernel j)
  close_unlinked-open fd (res, h) j valid failed = elim (Bool-cases (eq_ℤ res (pos 0))) [
    | inl linked ↦ let same : is_negative fd ≡ true = rw linked at failed in cc
    | inr differ ↦ rw differ (laws.closed fd j h.kernel)
  ]

  -- An `init_sock` that fails leaks no descriptor: the same ones are open as before.
  init_sock-open :
      (h : EventHandler K) (j : ℤ)
      → is_negative (init_sock calls epoll_ctl h).0 ≡ true
      → is_open (init_sock calls epoll_ctl h).1.kernel j ≡ is_open h.kernel j
  unfolding init_sock
  init_sock-open h j failed =
      let fd = (calls.socket h.kernel).0 in
      let opened : EventHandler K = record h { kernel = (calls.socket h.kernel).1 } in
      elim (Bool-cases (is_negative fd)) [
        | inl refused ↦ rw refused (laws.refused h.kernel j refused)
        | inr valid ↦
            let closed =
              close_unlinked-open fd (link epoll_ctl fd input_events opened) j valid
                (rw valid at failed) in
            rw valid (
              closed
              ∙ ground (
                arith,
                eq_ℤ_iff fd j,
                link-open fd input_events opened j,
                laws.opened h.kernel j valid,
                laws.fresh h.kernel valid,
              ))
      ]
