-- ===== src/Drivers/SipClient/Holding.antt =====
-- What the SIP client holds: each resource is allocated once or never, and released by the destructor.
use yeti_lnp_resolver.Base.{
  ◌≡◌, refl, ◌≤◌, Bool, true, false, List, [], ◌∷◌, ◌&&◌, if◌then◌else◌, arith,
}
use yeti_lnp_resolver.Base.Counting.{count, count-append}
use yeti_lnp_resolver.Threads.{Thread}
use yeti_lnp_resolver.Drivers.SipClient.{SipLibrary}
use yeti_lnp_resolver.Drivers.SipClient.Life.{
  Resource, dns_client, sip_stack, session_socket, LibraryCall, alloc, deref, close_library,
  delete_instance, is_set, Sip, new_sip, make, create, end_request, LifeEvent, request_ends,
  loop_ends, end_loop, happen, on_stop, release,
}
use yeti_lnp_resolver.Drivers.SipClient.Creation.{
  with_client, with_stack, with_socket, create-keeps,
}

abbrev pub eq_Resource : Resource → Resource → Bool
eq_Resource dns_client dns_client = true
eq_Resource sip_stack sip_stack = true
eq_Resource session_socket session_socket = true
eq_Resource _ _ = false

abbrev pub is_alloc : Resource → LibraryCall → Bool
is_alloc r (alloc q) = eq_Resource r q
is_alloc r _ = false

-- A reference that is not null is given back.
abbrev pub is_deref : Resource → LibraryCall → Bool
is_deref r (deref q b) = eq_Resource r q && b
is_deref r _ = false

-- A resource was allocated once or never, as its pointer says, and was not released.
abbrev pub IsHeld : Resource → Sip → Type 0
IsHeld r s =
    (count (is_alloc r) s.calls ≡ (if is_set r s.pointers then 1 else 0))
    × (count (is_deref r) s.calls ≡ 0)

IsHeld-before : (r : Resource) → IsHeld r new_sip
IsHeld-before dns_client = (refl, refl)
IsHeld-before sip_stack = (refl, refl)
IsHeld-before session_socket = (refl, refl)

IsHeld-client : (r : Resource) → IsHeld r with_client
IsHeld-client dns_client = (refl, refl)
IsHeld-client sip_stack = (refl, refl)
IsHeld-client session_socket = (refl, refl)

IsHeld-stack : (r : Resource) → IsHeld r with_stack
IsHeld-stack dns_client = (refl, refl)
IsHeld-stack sip_stack = (refl, refl)
IsHeld-stack session_socket = (refl, refl)

IsHeld-socket : (r : Resource) → IsHeld r with_socket
IsHeld-socket dns_client = (refl, refl)
IsHeld-socket sip_stack = (refl, refl)
IsHeld-socket session_socket = (refl, refl)

pub create-IsHeld : (r : Resource) (l : SipLibrary) (b : Bool) → IsHeld r (create l b new_sip).1.1
create-IsHeld r l b =
    create-keeps (IsHeld r) l b (IsHeld-before r) (IsHeld-client r) (IsHeld-stack r)
      (IsHeld-socket r)

-- Calls that neither allocate nor release anything keep what is held.
make-IsHeld :
    (r : Resource) (cs : List LibraryCall) (s : Sip)
    → count (is_alloc r) cs ≡ 0
    → count (is_deref r) cs ≡ 0
    → IsHeld r s
    → IsHeld r (make cs s)
make-IsHeld r cs s none_made none_given (made, given) = (
  omega (arith, count-append (is_alloc r) s.calls cs),
  omega (arith, count-append (is_deref r) s.calls cs),
)

end_request-IsHeld : (r : Resource) (rv : Bool) (s : Sip) → IsHeld r s → IsHeld r (end_request rv s)
end_request-IsHeld r true s h = make-IsHeld r _ s refl refl h
end_request-IsHeld r false s h = make-IsHeld r _ s refl refl h

pub happen-IsHeld :
    (r : Resource) (es : List LifeEvent) (w : Thread × Sip)
    → IsHeld r w.1
    → IsHeld r (happen es w).1
happen-IsHeld r [] w h = h
happen-IsHeld r (request_ends rv ∷ es) (t, s) h =
    happen-IsHeld r es (t, end_request rv s) (end_request-IsHeld r rv s h)
happen-IsHeld r (loop_ends ∷ es) (t, s) h = happen-IsHeld r es (end_loop t, s) h

abbrev pub last_calls : Sip → List LibraryCall
last_calls s =
    close_library
    ∷ delete_instance
    ∷ deref session_socket s.pointers.socket
    ∷ deref sip_stack s.pointers.stack
    ∷ deref dns_client s.pointers.name_server_client
    ∷ []

last_calls-derefs :
    (r : Resource) (s : Sip)
    → (count (is_deref r) (last_calls s) ≡ (if is_set r s.pointers then 1 else 0))
      × (count (is_alloc r) (last_calls s) ≡ 0)
last_calls-derefs dns_client s = (omega arith, refl)
last_calls-derefs sip_stack s = (omega arith, refl)
last_calls-derefs session_socket s = (omega arith, refl)

at_most_once : (b : Bool) → (if b then 1 else 0) ≤ 1
at_most_once true = omega arith
at_most_once false = omega arith

pub release-derefs :
    (r : Resource) (s : Sip)
    → IsHeld r s
    → (count (is_deref r) (release s).calls ≡ count (is_alloc r) (release s).calls)
      × (count (is_deref r) (release s).calls ≤ 1)
release-derefs r s (made, given) =
    let last = last_calls-derefs r s in
    let derefs = count-append (is_deref r) s.calls (last_calls s) in
    let allocs = count-append (is_alloc r) s.calls (last_calls s) in
    (
      omega (arith, made, given, last.0, last.1, derefs, allocs),
      omega (arith, given, last.0, derefs, at_most_once (is_set r s.pointers)),
    )

pub on_stop-IsHeld :
    (r : Resource) (b : Bool) (s : Sip) → IsHeld r s → IsHeld r (if b then on_stop s else s)
on_stop-IsHeld r true s h = make-IsHeld r _ s refl refl h
on_stop-IsHeld r false s h = h
