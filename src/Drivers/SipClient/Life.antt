-- ===== src/Drivers/SipClient/Life.antt =====
-- The life of the SIP client of src/drivers/modules/SipClient.cpp: what `getInstance` allocates, what the
-- end of a request and the stopping of the thread ask of the library (re), and what the destructor of
-- the instance releases, as the sequence of the library's calls.
use yeti_lnp_resolver.Base.{
  Bool, true, false, Option, none, some, List, [], ◌∷◌, ◌++◌, Bytes, codes, ◌⊎◌, inl, inr, ◌==◌,
  if◌then◌else◌,
}
use yeti_lnp_resolver.Threads.{
  Thread, new_thread, Started, already_running, could_not_start, started, start, finish, Stopped,
  ended, stop_waits, undefined_detach, stop,
}
use yeti_lnp_resolver.Drivers.SipClient.{SipLibrary}

-- What the static pointers `sNameServerClient`, `sSipStack` and `sSipSocket` are for.
pub data Resource : Type 0 where
  dns_client sip_stack session_socket : Resource

-- `deref` has whether the pointer is not null; `cancel_loop` is `re_cancel`, `deref_session` ends the
-- session of one request.
pub data LibraryCall : Type 0 where
  alloc : Resource → LibraryCall
  deref : Resource → Bool → LibraryCall
  close_sessions close_stack cancel_loop close_library delete_instance deref_session : LibraryCall

pub record SipPointers : Type 0 where
  pub name_server_client : Bool
  pub stack : Bool
  pub socket : Bool

abbrev pub is_set : Resource → SipPointers → Bool
is_set dns_client p = p.name_server_client
is_set sip_stack p = p.stack
is_set session_socket p = p.socket

-- Which pointers are not null, and the calls made so far.
pub record Sip : Type 0 where
  pub pointers : SipPointers
  pub calls : List LibraryCall

abbrev pub new_sip : Sip
new_sip = record {
  pointers = record { name_server_client = false; stack = false; socket = false };
  calls = [];
}

abbrev pub make : List LibraryCall → Sip → Sip
make cs s = record s { calls = s.calls ++ cs }

abbrev pub point : Resource → SipPointers → SipPointers
point dns_client p = record p { name_server_client = true }
point sip_stack p = record p { stack = true }
point session_socket p = record p { socket = true }

abbrev pub allocate : Resource → Sip → Sip
allocate r s = record (make (alloc r ∷ []) s) { pointers = point r s.pointers }

-- How `getInstance` ended: with an exception's text or not.
abbrev pub Created : Type 0
Created = (Bytes ⊎ Unit {0}) × (Thread × Sip)

-- A call that returns 0, with what it allocates, before the rest; or an exception.
abbrev pub attempt : Bool → Bytes → Option Resource → (Sip → Created) → Sip → Created
attempt false what r rest s = (inl what, (new_thread, s))
attempt true what none rest s = rest s
attempt true what (some r) rest s = rest (allocate r s)

abbrev pub start_result : Started → Bytes ⊎ Unit {0}
start_result could_not_start = inl (codes "thread could not be started")
start_result already_running = inr tt
start_result started = inr tt

-- `sInstance->start()`
abbrev pub start_loop : Bool → Sip → Created
start_loop is_created s =
    let (result, t) = start is_created new_thread in (start_result result, (t, s))

-- The first call of `getInstance`.
unfoldable pub create : SipLibrary → Bool → Sip → Created
unfolding start
create l is_created s =
    attempt l.libre_init (codes "internal initialization error") none
      (attempt l.dns_srv_get (codes "unable to get DNS servers") none (
        attempt l.dnsc_alloc (codes "unable to create DNS client") (some dns_client) (
          attempt l.sip_alloc (codes "unable to create SIP stack") (some sip_stack) (
            attempt l.net_default_source_addr_get (codes "unable to get default local address") none
              (attempt l.sip_transp_add (codes "unable to add supported SIP transport") none (
                attempt l.sipsess_listen (codes "unable to create SIP session socket")
                  (some session_socket) (start_loop is_created)))))))
      s

-- The end of `perform`: the reply came, or the time was over.
abbrev pub end_request : Bool → Sip → Sip
end_request true s = make (deref_session ∷ []) s
end_request false s = make (close_sessions ∷ []) s

-- What happens until the destructor is called: a request ends, or the main loop, and its thread with
-- it, by itself.
pub data LifeEvent : Type 0 where
  request_ends : Bool → LifeEvent
  loop_ends : LifeEvent

abbrev pub end_loop : Thread → Thread
end_loop t = if t.running == 0 then t else finish t

abbrev pub happen : List LifeEvent → Thread × Sip → Thread × Sip
happen [] w = w
happen (request_ends rv ∷ es) (t, s) = happen es (t, end_request rv s)
happen (loop_ends ∷ es) (t, s) = happen es (end_loop t, s)

abbrev pub on_stop : Sip → Sip
on_stop s = make (close_sessions ∷ close_stack ∷ cancel_loop ∷ []) s

abbrev pub release : Sip → Sip
release s =
    make
      (close_library
        ∷ delete_instance
        ∷ deref session_socket s.pointers.socket
        ∷ deref sip_stack s.pointers.stack
        ∷ deref dns_client s.pointers.name_server_client
        ∷ [])
      s

abbrev pub released : Stopped Sip → Stopped Sip
released (ended (t, s)) = ended (t, release s)
released stop_waits = stop_waits
released undefined_detach = undefined_detach

-- The destructor of `CSipClientDestructor`, once there is an instance: the thread as it is then.
unfoldable pub destroy : Thread × Sip → Stopped Sip
unfolding stop
destroy w = released (stop (λ s. some (on_stop s)) w)
