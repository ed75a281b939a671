-- ===== src/Drivers/SipClient/Closing.antt =====
-- How the life of the SIP client ends: the destructor, with what it releases and the thread it leaves.
use mathlib.Core.Path.{subst}
use yeti_lnp_resolver.Base.{
  ◌≡◌, ◌↔◌, refl, sym, ap, ◌∙◌, ℕ, ◌≤◌, Bool, true, false, List, [], ◌∷◌, ◌&&◌, not, if◌then◌else◌,
  arith,
}
use yeti_lnp_resolver.Base.Counting.{count}
use yeti_lnp_resolver.Threads.{Thread, Stopped, ended, undefined_detach, stop, finish}
use yeti_lnp_resolver.Drivers.SipClient.{SipLibrary, initialize}
use yeti_lnp_resolver.Drivers.SipClient.Instance.{returns}
use yeti_lnp_resolver.Drivers.SipClient.Life.{
  Resource, LibraryCall, cancel_loop, Sip, new_sip, create, end_request, LifeEvent, request_ends,
  loop_ends, end_loop, happen, on_stop, release, destroy,
}
use yeti_lnp_resolver.Drivers.SipClient.Holding.{
  is_alloc, is_deref, create-IsHeld, happen-IsHeld, release-derefs, on_stop-IsHeld,
}
use yeti_lnp_resolver.Drivers.SipClient.Creation.{
  number, IsIdle, IsRunning, IsLeft, create-CreatesAs,
}

abbrev pub is_cancel : LibraryCall → Bool
is_cancel cancel_loop = true
is_cancel _ = false

abbrev cancels : Sip → ℕ
cancels s = count is_cancel s.calls

-- Whether the main loop ends by itself.
abbrev pub does_end : List LifeEvent → Bool
does_end [] = false
does_end (loop_ends ∷ es) = true
does_end (request_ends rv ∷ es) = does_end es

end_loop-IsIdle : (t : Thread) → IsIdle t → IsIdle (end_loop t)
end_loop-IsIdle t (s, n) = rw n (s, refl)

end_loop-IsRunning : (t : Thread) → IsRunning t → IsIdle (end_loop t)
unfolding finish
end_loop-IsRunning t (s, d, n) = rw n (refl, omega (arith, n))

happen-IsIdle : (es : List LifeEvent) (w : Thread × Sip) → IsIdle w.0 → IsIdle (happen es w).0
happen-IsIdle [] w h = h
happen-IsIdle (request_ends rv ∷ es) (t, s) h = happen-IsIdle es (t, end_request rv s) h
happen-IsIdle (loop_ends ∷ es) (t, s) h = happen-IsIdle es (end_loop t, s) (end_loop-IsIdle t h)

happen-IsRunning :
    (es : List LifeEvent) (w : Thread × Sip)
    → IsRunning w.0
    → IsLeft (not (does_end es)) true (happen es w).0
happen-IsRunning [] w h = h
happen-IsRunning (request_ends rv ∷ es) (t, s) h = happen-IsRunning es (t, end_request rv s) h
happen-IsRunning (loop_ends ∷ es) (t, s) h =
    happen-IsIdle es (end_loop t, s) (end_loop-IsRunning t h)

-- The calls that were made when the destructor has returned, and the threads that run then.
abbrev pub calls_of : Stopped Sip → List LibraryCall
calls_of (ended (t, s)) = s.calls
calls_of _ = []

abbrev pub running_of : Stopped Sip → ℕ
running_of (ended (t, s)) = t.running
running_of _ = 0

-- What becomes of a thread that ended or runs.
destroy-ended :
    (b : Bool) (t : Thread) (s : Sip)
    → IsLeft b true t
    → (last : Thread × Sip) × (destroy (t, s) ≡ ended last)
      × (last.1 ≡ release (if b then on_stop s else s))
      × (last.0.running ≡ number b)
unfolding destroy stop
destroy-ended true t s (runs, set, one) =
    ((record t { is_detached = true }, release (on_stop s)), rw (runs, set) refl, refl, one)
destroy-ended false t s (stopped, none_runs) = ((t, release s), rw stopped refl, refl, none_runs)

happen-IsLeft :
    (i : Bool) (es : List LifeEvent) (w : Thread × Sip)
    → IsLeft i true w.0
    → IsLeft (i && not (does_end es)) true (happen es w).0
happen-IsLeft true es w h = happen-IsRunning es w h
happen-IsLeft false es w h = happen-IsIdle es w h

-- Whichever calls of the SIP library fail at the start, however the requests end, and whether or
-- not the main loop ends by itself: if the thread can be created, the destructor returns, and the
-- client has released each resource as often as it was allocated, at most once.
pub life-released :
    (r : Resource) (l : SipLibrary) (es : List LifeEvent)
    → (last : Thread × Sip) × (destroy (happen es (create l true new_sip).1) ≡ ended last)
      × (count (is_deref r) last.1.calls ≡ count (is_alloc r) last.1.calls)
      × (count (is_deref r) last.1.calls ≤ 1)
life-released r l es =
    let first = (create l true new_sip).1 in
    let w = happen es first in
    let runs = returns (initialize l) && not (does_end es) in
    let (last, same, calls, running) =
      destroy-ended runs w.0 w.1
        (happen-IsLeft (returns (initialize l)) es first (create-CreatesAs l true).1) in
    let derefs =
      release-derefs r _
        (on_stop-IsHeld r runs w.1 (happen-IsHeld r es first (create-IsHeld r l true))) in
    (
      last,
      same,
      ap (λ s. count (is_deref r) s.calls) calls
          ∙ derefs.0
          ∙ ap (λ s. count (is_alloc r) s.calls) (sym calls),
      subst (λ s. count (is_deref r) s.calls ≤ 1) (sym calls) derefs.1,
    )

-- How the destructor ends, from the initialization, the thread's creation and whether it runs.
abbrev EndsAs : Bool → Bool → Bool → Stopped Sip → Type 0
EndsAs i b runs last =
    ((last ≡ undefined_detach) ↔ ((i ≡ true) × (b ≡ false)))
    × (count is_cancel (calls_of last) ≡ number runs)
    × (running_of last ≡ number runs)
