-- ===== src/Threads.antt =====
-- src/thread.h and src/thread.cpp: the condition variable with a flag that the cache and the SIP client
-- wait for, and the life of a thread. What pthreads does (which wait ends how, whether a thread is
-- created) is an argument.
pub mod Laws
use yeti_lnp_resolver.Base.{
  ℕ, suc, ◌+◌, ◌-◌, ◌*◌, ◌/◌, ◌%◌, Bool, true, false, Option, none, some, List, [], ◌∷◌, ltb,
  if◌then◌else◌,
}

-- `struct timespec`
pub record Timespec : Type 0 where
  pub tv_sec : ℕ
  pub tv_nsec : ℕ

abbrev pub normalized : Timespec → Timespec
normalized t =
    if ltb t.tv_nsec 1000000000
    then t
    else record { tv_sec = suc t.tv_sec; tv_nsec = t.tv_nsec - 1000000000 }

-- The time until which `wait_for_to` waits, from the clock's seconds and microseconds.
unfoldable pub deadline : ℕ → ℕ → ℕ → Timespec
deadline now_sec now_usec msec =
    normalized (record {
      tv_sec = now_sec + msec / 1000;
      tv_nsec = (now_usec + (msec % 1000) * 1000) * 1000;
    })

-- How a wait for the condition ended: the flag after it, and whether the return code was not 0.
pub record Wakeup : Type 0 where
  pub flag : Bool
  pub is_failed : Bool

-- The loop of `wait_for_to` and its result, or none while it waits.
unfoldable pub wait_for_to : Bool → List Wakeup → Option Bool
wait_for_to true ws = some true
wait_for_to false [] = none
wait_for_to false (w ∷ ws) = if w.is_failed then some w.flag else wait_for_to w.flag ws

-- `_stopped`, whether `_td` is that of a thread, as `pthread_create` leaves it undefined where it fails,
-- how many system threads run for the object, and whether the last one was detached.
pub record Thread : Type 0 where
  pub stopped : Bool
  pub is_td_set : Bool
  pub running : ℕ
  pub is_detached : Bool

abbrev pub new_thread : Thread
new_thread = record { stopped = true; is_td_set = false; running = 0; is_detached = false }

-- How `start` ended.
pub data Started : Type 0 where
  already_running could_not_start started : Started

abbrev pub start_stopped : Bool → Bool → Thread → Started × Thread
start_stopped is_created false t = (already_running, t)
start_stopped false true t = (could_not_start, record t { stopped = false; is_td_set = false })
start_stopped true true t = (
  started,
  record t { stopped = false; is_td_set = true; running = suc t.running; is_detached = false },
)

-- `start`; the argument is whether `pthread_create` returned 0.
unfoldable pub start : Bool → Thread → Started × Thread
start is_created t = start_stopped is_created t.stopped t

-- The end of `_start`, in the thread itself.
unfoldable pub finish : Thread → Thread
finish t = record t { stopped = true; running = t.running - 1 }

-- How `stop` ended: it returned, `on_stop` waits for ever, or `pthread_detach` was called for a thread
-- that never was, which pthreads leaves undefined.
pub data Stopped (S : Type 0) : Type 0 where
  ended : Thread × S → Stopped S
  stop_waits undefined_detach : Stopped S

abbrev pub detach : {S : Type 0} → Thread → Option S → Stopped S
detach t none = stop_waits
detach t (some s) =
    if t.is_td_set then ended (record t { is_detached = true }, s) else undefined_detach

-- `stop`: `on_stop` asks the thread to end, and its exceptions are caught; then the thread is detached.
-- An object that is stopped is left alone.
unfoldable pub stop : {S : Type 0} → (S → Option S) → Thread × S → Stopped S
stop on_stop (t, s) = if t.stopped then ended (t, s) else detach t (on_stop s)

-- `join`: nothing to wait for, a wait for the thread's end, or one for a thread that was detached, which
-- pthreads leaves undefined.
pub data Join : Type 0 where
  no_wait waits undefined_wait : Join

unfoldable pub join : Thread → Join
join t = if t.stopped then no_wait else if t.is_detached then undefined_wait else waits

-- `condition::set` and the loop of `wait_for`: the values that the flag has when a wait returns.
unfoldable pub wait_for : Bool → List Bool → Bool
wait_for true flags = true
wait_for false [] = false
wait_for false (flag ∷ flags) = wait_for flag flags
