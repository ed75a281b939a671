-- ===== src/HttpClient/Sockets.antt =====
-- The descriptors of libcurl's sockets, and the callbacks that libcurl makes.
use yeti_lnp_resolver.Base.{ℕ, true, Option, none, some, List, [], ◌∷◌, ℤ, pos, eq_ℤ, if◌then◌else◌}
use yeti_lnp_resolver.Base.Assoc.{lookup, erase}
use yeti_lnp_resolver.EventHandler.{Events, no_events, EpollOp, link, modify_link, unlink}
use yeti_lnp_resolver.HttpClient.Transfers.{
  Poll, poll_none, poll_in, poll_out, poll_inout, poll_remove, SockInfo, HttpClient, Callback,
  socket_callback, timer_callback, write_callback, error_text, write_cb, write_error,
  set_timer_value,
}

-- The event that a descriptor of the client is linked for.
abbrev pub socket_events : Poll → Events
socket_events poll_in = record no_events { epollerr = true; epollin = true }
socket_events poll_out = record no_events { epollerr = true; epollout = true }
socket_events poll_inout = record no_events { epollerr = true; epollout = true; epollin = true }
socket_events _ = record no_events { epollerr = true }

module _ {K : Type 0} (epoll_ctl : EpollOp → ℤ → K → ℤ × K) where
  -- `sock_info->sock_fd` is 0 in a new `SockInfo`.
  unfoldable pub set_sock : ℤ → ℤ → ℕ → Poll → HttpClient K → HttpClient K
  set_sock old_fd sock_fd easy action c = record c {
    base =
        (if eq_ℤ old_fd (pos 0)
          then (link epoll_ctl sock_fd (socket_events action) c.base).1
          else (modify_link epoll_ctl old_fd (socket_events action) c.base).1);
    sockets =
        (sock_fd, record { sock_fd = sock_fd; easy = easy; action = action })
        ∷ erase eq_ℤ sock_fd c.sockets;
  }

  unfoldable pub rem_sock : ℤ → Option SockInfo → HttpClient K → HttpClient K
  rem_sock fd none c = c
  rem_sock fd (some info) c = record c {
    base = (if eq_ℤ info.sock_fd (pos 0) then c.base else (unlink epoll_ctl info.sock_fd c.base).1);
    sockets = erase eq_ℤ fd c.sockets;
  }

  -- `add_sock`, or `set_sock` on the information that is there.
  abbrev pub set_or_add : ℤ → ℕ → Poll → Option SockInfo → HttpClient K → HttpClient K
  set_or_add fd easy what none c = set_sock (pos 0) fd easy what c
  set_or_add fd easy what (some info) c = set_sock info.sock_fd fd easy what c

  unfoldable pub socket_cb : ℕ → ℤ → Poll → Option SockInfo → HttpClient K → HttpClient K
  unfolding set_sock rem_sock
  socket_cb easy fd poll_none info c = c
  socket_cb easy fd poll_remove info c = rem_sock fd info c
  socket_cb easy fd what info c = set_or_add fd easy what info c

  unfoldable pub run_callback : Callback → HttpClient K → HttpClient K
  unfolding socket_cb set_timer_value write_cb write_error
  run_callback (socket_callback easy fd what) c =
      socket_cb easy fd what (lookup eq_ℤ fd c.sockets) c
  run_callback (timer_callback ms) c = set_timer_value ms c
  run_callback (write_callback easy chunk) c = write_cb easy chunk c
  run_callback (error_text easy text) c = write_error easy text c

  unfoldable pub run_callbacks : List Callback → HttpClient K → HttpClient K
  unfolding run_callback
  run_callbacks [] c = c
  run_callbacks (x ∷ xs) c = run_callbacks xs (run_callback x c)
