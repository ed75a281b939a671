-- ===== src/EventHandler.antt =====
-- src/dispatcher/EventHandler.cpp: the base class of all that the dispatcher serves. The system call
-- `epoll_ctl` is an argument, a function on the kernel's state; the order of the entries in
-- `events_map` is that of their insertion, where the source's map sorts them.
pub mod Registered
pub mod UnlinkAll
use yeti_lnp_resolver.Base.{
  ℕ, suc, zero, Bool, false, ◌&&◌, ◌||◌, Option, none, some, List, [], ◌∷◌, ℤ, pos, negsuc, eq_ℤ,
  is_negative, if◌then◌else◌, length,
}
use yeti_lnp_resolver.Base.Assoc.{lookup, erase}

-- A mask of events, by its bits: those the code asks for, and one that epoll adds.
pub record Events : Type 0 where
  pub epollin : Bool
  pub epollout : Bool
  pub epollerr : Bool
  pub epollhup : Bool

abbrev pub no_events : Events
no_events = record { epollin = false; epollout = false; epollerr = false; epollhup = false }

-- Whether `a & b` is not 0.
abbrev pub intersects : Events → Events → Bool
intersects a b =
    (a.epollin && b.epollin)
    || (a.epollout && b.epollout)
    || (a.epollerr && b.epollerr)
    || (a.epollhup && b.epollhup)

pub data EpollOp : Type 0 where
  ctl_add ctl_mod : Events → EpollOp
  ctl_del : EpollOp

-- `kernel` is the state of the epoll instance, which only the system call reads and changes.
pub record EventHandler (K : Type 0) : Type 0 where
  pub epoll_fd : ℤ
  pub events_map : List (ℤ × Events)
  pub kernel : K

-- `events_map[fd] = events`
unfoldable pub assign : ℤ → Events → List (ℤ × Events) → List (ℤ × Events)
assign fd ev [] = (fd, ev) ∷ []
assign fd ev ((k, w) ∷ m) = if eq_ℤ k fd then (k, ev) ∷ m else (k, w) ∷ assign fd ev m

abbrev pub or_no_events : Option Events → Events
or_no_events none = no_events
or_no_events (some ev) = ev

unfoldable pub find_events : ℤ → List (ℤ × Events) → Events
find_events fd m = or_no_events (lookup eq_ℤ fd m)

unfoldable pub is_can_handle : ℤ → Events → List (ℤ × Events) → Bool
is_can_handle fd ev m = intersects (find_events fd m) ev

module _ {K : Type 0} where
  unfoldable pub set_epoll : ℤ → EventHandler K → EventHandler K
  set_epoll fd h = record h { epoll_fd = fd }

  -- What follows a call of `epoll_ctl` in `link`, `modify_link` and `unlink`.
  abbrev pub assigned : ℤ → Events → ℤ × K → EventHandler K → ℤ × EventHandler K
  assigned fd ev (res, k) h = (
    res,
    if eq_ℤ res (pos 0)
        then record h { events_map = assign fd ev h.events_map; kernel = k }
        else record h { kernel = k },
  )

  abbrev pub removed : ℤ → ℤ × K → EventHandler K → ℤ × EventHandler K
  removed fd (res, k) h = (res, record h { events_map = erase eq_ℤ fd h.events_map; kernel = k })

module _ {K : Type 0} (epoll_ctl : EpollOp → ℤ → K → ℤ × K) where
  unfoldable pub link : ℤ → Events → EventHandler K → ℤ × EventHandler K
  link fd ev h =
      if is_negative h.epoll_fd
      then (negsuc 0, h)
      else assigned fd ev (epoll_ctl (ctl_add ev) fd h.kernel) h

  -- The entry is looked for before the descriptor is tested.
  abbrev pub modify_found : ℤ → Events → EventHandler K → Option Events → ℤ × EventHandler K
  modify_found fd ev h none = link fd ev h
  modify_found fd ev h (some old) =
      if is_negative h.epoll_fd
      then (negsuc 0, h)
      else assigned fd ev (epoll_ctl (ctl_mod ev) fd h.kernel) h

  unfoldable pub modify_link : ℤ → Events → EventHandler K → ℤ × EventHandler K
  modify_link fd ev h = modify_found fd ev h (lookup eq_ℤ fd h.events_map)

  -- The entry is removed even where the call failed.
  unfoldable pub unlink : ℤ → EventHandler K → ℤ × EventHandler K
  unlink fd h =
      if is_negative h.epoll_fd then (negsuc 0, h) else removed fd (epoll_ctl ctl_del fd h.kernel) h

  -- The loop of `unlink_all_events`: every round takes the first entry out. On fuel, with the
  -- rounds that were not needed; `none` if there were too few.
  unfoldable pub unlink_loop : ℕ → List (ℤ × Events) → EventHandler K → Option (EventHandler K)
  unlink_loop fuel [] h = some (record h { events_map = [] })
  unlink_loop zero (e ∷ m) h = none
  unlink_loop (suc fuel) ((fd, ev) ∷ m) h =
      unlink_loop fuel m (record h { events_map = m; kernel = (epoll_ctl ctl_del fd h.kernel).1 })

  unfoldable pub unlink_all_events : ℕ → EventHandler K → Option (ℤ × EventHandler K)
  unlink_all_events fuel h =
      if is_negative h.epoll_fd
      then some (negsuc 0, h)
      else elim (unlink_loop fuel h.events_map h) [ none ↦ none | some g ↦ some (pos 0, g) ]
