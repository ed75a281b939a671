-- ===== src/EventHandler/UnlinkAll.antt =====
-- The loop of `EventHandler::unlink_all_events`, which the destructor runs.
use yeti_lnp_resolver.Base.{
  ◌≡◌, refl, ℕ, zero, suc, ◌≤◌, false, some, List, [], ◌∷◌, ℤ, pos, is_negative, length, arith,
}
use yeti_lnp_resolver.EventHandler.{
  Events, EpollOp, ctl_del, EventHandler, unlink_loop, unlink_all_events,
}

module _ {K : Type 0} (epoll_ctl : EpollOp → ℤ → K → ℤ × K) where
  -- The kernel after a deletion of each descriptor.
  abbrev pub delete_each : List (ℤ × Events) → K → K
  delete_each [] k = k
  delete_each ((fd, ev) ∷ m) k = delete_each m (epoll_ctl ctl_del fd k).1

  unlink_loop-delete_each :
      (fuel : ℕ) (m : List (ℤ × Events)) (h : EventHandler K)
      → length m ≤ fuel
      → unlink_loop epoll_ctl fuel m h
        ≡ some (record h { events_map = []; kernel = delete_each m h.kernel })
  unfolding unlink_loop
  unlink_loop-delete_each zero [] h enough = refl
  unlink_loop-delete_each (suc fuel) [] h enough = refl
  unlink_loop-delete_each zero (e ∷ m) h enough = absurd (omega arith)
  unlink_loop-delete_each (suc fuel) ((fd, ev) ∷ m) h enough =
      unlink_loop-delete_each fuel m _ (omega arith)

  -- On a handler with a valid descriptor of epoll the loop of `unlink_all_events` ends within as
  -- many rounds as there are entries, whether or not the calls of `epoll_ctl` fail: no entry is left,
  -- and epoll was told once to delete each descriptor that was there.
  unlink_all_events-delete_each :
      (fuel : ℕ) (h : EventHandler K)
      → is_negative h.epoll_fd ≡ false
      → length h.events_map ≤ fuel
      → unlink_all_events epoll_ctl fuel h
        ≡ some (pos 0, record h { events_map = []; kernel = delete_each h.events_map h.kernel })
  unfolding unlink_all_events
  unlink_all_events-delete_each fuel h set enough =
      rw (set, unlink_loop-delete_each fuel h.events_map h enough) refl
