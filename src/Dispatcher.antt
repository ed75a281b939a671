-- ===== src/Dispatcher.antt =====
-- src/dispatcher/Dispatcher.cpp and src/dispatcher/LoopTerminator.cpp: the loop that gives each event
-- of epoll to a handler, and the handler that ends it. The results of `epoll_wait` are a list, one
-- for each round; S is the state of the handlers other than the terminator.
pub mod Owner
pub mod Stop
use yeti_lnp_resolver.Base.{
  ℕ, suc, Bool, true, false, Option, none, some, ◌==◌, List, [], ◌∷◌, ◌++◌, ℤ, pos, negsuc,
  is_negative, if◌then◌else◌,
}
use yeti_lnp_resolver.EventHandler.{Events, EpollOp, EventHandler, is_can_handle, link}

pub record Event : Type 0 where
  pub fd : ℤ
  pub events : Events

-- A registered handler: the state of its base class, read in the state of all, and `handle_event`,
-- which has the flag `stop` by reference.
pub record Handler (S : Type 0) : Type 0 where
  pub events_of : S → List (ℤ × Events)
  pub handle_event : ℤ → Events → S × Bool → S × Bool

-- A round of the loop: an error of `epoll_wait`, `EINTR` or another, or the events.
pub data Wait : Type 0 where
  failed interrupted : Wait
  ready : List Event → Wait

module _ {S : Type 0} where
  -- `for (auto &h : handlers)`: the first handler that can handle the event gets it.
  unfoldable pub dispatch : Event → List (Handler S) → S × Bool → S × Bool
  unfolding is_can_handle
  dispatch e [] w = w
  dispatch e (h ∷ hs) (s, stop) =
      if is_can_handle e.fd e.events (h.events_of s)
      then h.handle_event e.fd e.events (s, stop)
      else dispatch e hs (s, stop)

  -- The events of one round; those behind the one that sets `stop` are not looked at.
  unfoldable pub handle_events : List (Handler S) → List Event → S × Bool → S × Bool
  unfolding dispatch
  handle_events hs [] w = w
  handle_events hs (e ∷ es) (s, true) = (s, true)
  handle_events hs (e ∷ es) (s, false) = handle_events hs es (dispatch e hs (s, false))

  unfoldable pub round : List (Handler S) → Wait → S × Bool → S × Bool
  unfolding handle_events
  round hs failed w = w
  round hs interrupted w = w
  round hs (ready es) w = handle_events hs es w

  -- `loop`, as far as the rounds go: the flag says whether it has returned.
  unfoldable pub loop : List (Handler S) → List Wait → S × Bool → S × Bool
  unfolding round
  loop hs [] w = w
  loop hs (x ∷ xs) (s, true) = (s, true)
  loop hs (x ∷ xs) (s, false) = loop hs xs (round hs x (s, false))

-- A handler's address is a number, or none for a null pointer; `epoll_of` is the member `epoll_fd` of
-- the handler at an address.
pub record Dispatcher : Type 0 where
  pub epoll_fd : ℤ
  pub handlers : List ℕ
  pub epoll_of : ℕ → ℤ

abbrev pub set_epoll_at : ℕ → ℤ → (ℕ → ℤ) → ℕ → ℤ
set_epoll_at h fd epoll_of p = if p == h then fd else epoll_of p

unfoldable pub register_handler : Option ℕ → Dispatcher → ℤ × Dispatcher
register_handler none d = (negsuc 0, d)
register_handler (some h) d = if is_negative d.epoll_fd then (negsuc 0, d) else (
  pos 0,
  record d { handlers = d.handlers ++ (h ∷ []); epoll_of = set_epoll_at h d.epoll_fd d.epoll_of },
)

abbrev pub erase_handler : ℕ → List ℕ → List ℕ
erase_handler h [] = []
erase_handler h (x ∷ xs) = if x == h then xs else x ∷ erase_handler h xs

unfoldable pub unregister_handler : Option ℕ → Dispatcher → ℤ × Dispatcher
unregister_handler none d = (negsuc 0, d)
unregister_handler (some h) d = (
  pos 0,
  record d {
    handlers = erase_handler h d.handlers;
    epoll_of = set_epoll_at h (negsuc 0) d.epoll_of;
  },
)

-- LoopTerminator: the descriptor of its counter, the counter, and its base class.
pub record LoopTerminator (K : Type 0) : Type 0 where
  pub event_fd : ℤ
  pub counter : ℕ
  pub base : EventHandler K

-- The events it asks for.
abbrev pub input_events : Events
input_events = record { epollin = true; epollout = false; epollerr = false; epollhup = false }

module _ {K : Type 0} where
  -- `fd` is what `eventfd` returned.
  unfoldable pub init_event : (EpollOp → ℤ → K → ℤ × K) → ℤ → EventHandler K → LoopTerminator K
  unfolding link
  init_event epoll_ctl fd h = record {
    event_fd = fd;
    counter = 0;
    base = (if is_negative fd then h else (link epoll_ctl fd input_events h).1);
  }

  unfoldable pub fire : LoopTerminator K → ℤ × LoopTerminator K
  fire t =
      if is_negative t.event_fd
      then (negsuc 0, t)
      else (pos 0, record t { counter = suc t.counter })

  -- `Dispatcher::stop`; `loop_terminator` is null until `loop` is called, and `none` is its use then.
  unfoldable pub stop : Option (LoopTerminator K) → Option (LoopTerminator K)
  unfolding fire
  stop none = none
  stop (some t) = some (fire t).1

  -- The counter is read, which resets it.
  unfoldable pub terminate : LoopTerminator K × Bool → LoopTerminator K × Bool
  terminate (t, stop) = (record t { counter = 0 }, true)

module _ {S K : Type 0} where
  -- Another handler beside the terminator, which it cannot reach.
  abbrev pub beside : Handler S → Handler (S × LoopTerminator K)
  beside h = record {
    events_of = (λ w. h.events_of w.0);
    handle_event = (λ fd ev w. let r = h.handle_event fd ev (w.0.0, w.1) in ((r.0, w.0.1), r.1));
  }

  abbrev pub terminator : Handler (S × LoopTerminator K)
  terminator = record {
    events_of = (λ w. w.1.base.events_map);
    handle_event = (λ fd ev w. ((w.0.0, (terminate (w.0.1, w.1)).0), (terminate (w.0.1, w.1)).1));
  }

  abbrev pub all_beside : List (Handler S) → List (Handler (S × LoopTerminator K))
  all_beside [] = terminator ∷ []
  all_beside (h ∷ hs) = beside h ∷ all_beside hs
