-- ===== src/Tests/Events.antt =====
-- A kernel that keeps what is registered, a handler of it, and the dispatcher's loop.
use yeti_lnp_resolver.Base.{
  ◌≡◌, refl, ap, ◌∙◌, true, false, Option, some, List, [], ◌∷◌, ◌++◌, ℤ, pos, eq_ℤ, eq_ℤ_iff,
  if◌then◌else◌,
}
use yeti_lnp_resolver.Base.Assoc.{lookup, erase, lookup-erase_other}
use yeti_lnp_resolver.EventHandler.{
  Events, no_events, EpollOp, ctl_add, ctl_mod, ctl_del, EventHandler, assign, link, modify_link,
  unlink, is_can_handle, find_events,
}
use yeti_lnp_resolver.EventHandler.Registered.{
  EpollLaws, lookup-assign, Call, linking, modifying, unlinking, calls, calls-registered,
}
use yeti_lnp_resolver.Dispatcher.{
  Event, Handler, Wait, interrupted, ready, loop, LoopTerminator, all_beside, input_events,
}
use yeti_lnp_resolver.Dispatcher.Stop.{loop-terminates}

abbrev Kernel : Type 0
Kernel = List (ℤ × Events)

abbrev epoll_ctl : EpollOp → ℤ → Kernel → ℤ × Kernel
epoll_ctl (ctl_add ev) fd k = (pos 0, assign fd ev k)
epoll_ctl (ctl_mod ev) fd k = (pos 0, assign fd ev k)
epoll_ctl ctl_del fd k = (pos 0, erase eq_ℤ fd k)

abbrev registered : Kernel → ℤ → Option Events
registered k fd = lookup eq_ℤ fd k

assigned : (fd : ℤ) (ev : Events) (k : Kernel) → lookup eq_ℤ fd (assign fd ev k) ≡ some ev
assigned fd ev k =
    lookup-assign fd fd ev k
    ∙ ap (λ b. if b then some ev else lookup eq_ℤ fd k) ((eq_ℤ_iff fd fd).1 refl)

others :
    (op : EpollOp) (fd j : ℤ) (k : Kernel)
    → eq_ℤ fd j ≡ false
    → registered (epoll_ctl op fd k).1 j ≡ registered k j
others (ctl_add ev) fd j k differ =
    lookup-assign fd j ev k ∙ ap (λ b. if b then some ev else lookup eq_ℤ j k) differ
others (ctl_mod ev) fd j k differ =
    lookup-assign fd j ev k ∙ ap (λ b. if b then some ev else lookup eq_ℤ j k) differ
others ctl_del fd j k differ = lookup-erase_other eq_ℤ eq_ℤ_iff fd j k differ

failing :
    (op : EpollOp) (fd j : ℤ) (k : Kernel)
    → eq_ℤ (epoll_ctl op fd k).0 (pos 0) ≡ false
    → registered (epoll_ctl op fd k).1 j ≡ registered k j
failing (ctl_add ev) fd j k e = cc
failing (ctl_mod ev) fd j k e = cc
failing ctl_del fd j k e = cc

epoll_laws : EpollLaws Kernel epoll_ctl registered
epoll_laws = record {
  added = λ fd ev k e. assigned fd ev k;
  modified = λ fd ev k e. assigned fd ev k;
  failed = failing;
  untouched = others;
}

abbrev new_handler : EventHandler Kernel
new_handler = record { epoll_fd = pos 3; events_map = []; kernel = [] }

abbrev output_events : Events
output_events = record no_events { epollout = true }

abbrev made : List Call
made =
    linking (pos 7) input_events
    ∷ modifying (pos 8) input_events
    ∷ modifying (pos 7) output_events
    ∷ unlinking (pos 8)
    ∷ []

abbrev used : EventHandler Kernel
used = calls epoll_ctl made new_handler

used_has : lookup eq_ℤ (pos 7) used.events_map ≡ some output_events
unfolding lookup erase assign link modify_link unlink
used_has = refl

calls-registered_example : registered used.kernel (pos 7) ≡ some output_events
calls-registered_example =
    calls-registered epoll_ctl registered epoll_laws made new_handler (pos 7) output_events refl
      used_has

-- A handler of the descriptor 7 that keeps its events.
abbrev other : Handler (List Event)
other = record {
  events_of = λ s. (pos 7, input_events) ∷ [];
  handle_event = λ fd ev w. (record { fd = fd; events = ev } ∷ w.0, w.1);
}

abbrev terminator_state : LoopTerminator Kernel
terminator_state = record {
  event_fd = pos 9;
  counter = 1;
  base = record { epoll_fd = pos 3; events_map = (pos 9, input_events) ∷ []; kernel = [] };
}

abbrev at_7 : Event
at_7 = record { fd = pos 7; events = input_events }

abbrev at_9 : Event
at_9 = record { fd = pos 9; events = input_events }

abbrev whole : List Wait
whole = (interrupted ∷ []) ++ (ready ((at_7 ∷ []) ++ (at_9 ∷ (at_7 ∷ []))) ∷ ready (at_7 ∷ []) ∷ [])

abbrev shortened : List Wait
shortened = (interrupted ∷ []) ++ (ready ((at_7 ∷ []) ++ (at_9 ∷ [])) ∷ [])

is_able : is_can_handle (pos 9) input_events terminator_state.base.events_map ≡ true
unfolding is_can_handle find_events lookup
is_able = refl

declined : is_can_handle (pos 9) input_events ((pos 7, input_events) ∷ []) ≡ false
unfolding is_can_handle find_events lookup
declined = refl

loop-terminates_example :
    (loop (all_beside (other ∷ [])) whole (([], terminator_state), false)
      ≡ loop (all_beside (other ∷ [])) shortened (([], terminator_state), false))
    × ((loop (all_beside (other ∷ [])) shortened (([], terminator_state), false)).1 ≡ true)
loop-terminates_example =
    loop-terminates (λ s. Unit {0}) (other ∷ []) terminator_state ((λ fd ev s i. tt), tt) at_9
      is_able (λ s i. (declined, tt)) (interrupted ∷ []) (at_7 ∷ []) (at_7 ∷ [])
      (ready (at_7 ∷ []) ∷ []) [] tt
