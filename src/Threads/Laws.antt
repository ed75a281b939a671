-- ===== src/Threads/Laws.antt =====
-- The deadline and the end of a wait, and how many threads an object has.
use yeti_lnp_resolver.Base.{
  ◌≡◌, refl, ℕ, ◌+◌, ◌*◌, ◌<◌, ◌≤◌, Bool, true, false, some, List, [], ◌∷◌, ◌++◌, ◌||◌, All, arith,
}
use yeti_lnp_resolver.Threads.{
  deadline, Wakeup, wait_for_to, Thread, new_thread, start, start_stopped, finish,
}

-- The deadline is the clock's time and as many milliseconds more, exactly, and its nanoseconds are
-- fewer than a second, if the clock's microseconds are.
pub deadline-exact :
    (now_sec now_usec msec : ℕ)
    → now_usec < 1000000
    → let t = deadline now_sec now_usec msec in
      (t.tv_sec * 1000000000 + t.tv_nsec ≡ now_sec * 1000000000 + now_usec * 1000 + msec * 1000000)
      × (t.tv_nsec < 1000000000)
unfolding deadline
deadline-exact now_sec now_usec msec small = ground arith

-- Whether the flag was set after some wait.
abbrev pub was_set : List Wakeup → Bool
was_set [] = false
was_set (w ∷ ws) = w.flag || was_set ws

-- A wait for the flag ends at the latest with the first failure of a wait, its timeout among them,
-- whatever would come behind it, and returns whether the flag was set before or after one of the
-- waits up to that one.
pub wait_for_to-was_set :
    (b : Bool) (ws rest : List Wakeup) (w : Wakeup)
    → All (λ v. v.is_failed ≡ false) ws
    → w.is_failed ≡ true
    → wait_for_to b (ws ++ (w ∷ rest)) ≡ some (b || was_set (ws ++ (w ∷ [])))
unfolding wait_for_to
wait_for_to-was_set true ws rest w woken failed = refl
wait_for_to-was_set false [] rest w woken failed = ground (arith, failed)
wait_for_to-was_set false (v ∷ ws) rest w woken failed =
    rw woken.0 (wait_for_to-was_set v.flag ws rest w woken.1 failed)

-- What happens to a thread's object: `start`, with what `pthread_create` does, and the thread's end.
pub data ThreadStep : Thread → Thread → Type 0 where
  starts : {t : Thread} (is_created : Bool) → ThreadStep t (start is_created t).1
  ends : {t : Thread} → 1 ≤ t.running → ThreadStep t (finish t)

pub data Lives : Thread → Type 0 where
  born : Lives new_thread
  lives : {t u : Thread} → Lives t → ThreadStep t u → Lives u

-- A stopped object has no thread.
abbrev IsSingle : Thread → Type 0
IsSingle t = (t.running ≤ 1) × (t.stopped ≡ true → t.running ≡ 0)

start_stopped-IsSingle :
    (is_created stopped : Bool) (t : Thread)
    → t.stopped ≡ stopped
    → IsSingle t
    → IsSingle (start_stopped is_created stopped t).1
start_stopped-IsSingle is_created false t same i = i
start_stopped-IsSingle false true t same i = (i.0, λ e. cc)
start_stopped-IsSingle true true t same i = (omega (arith, i.1 same), λ e. cc)

step-IsSingle : {t u : Thread} → ThreadStep t u → IsSingle t → IsSingle u
unfolding start finish
step-IsSingle {t} (starts is_created) i = start_stopped-IsSingle is_created t.stopped t refl i
step-IsSingle {t} (ends h) i = (omega (arith, i.0), λ e. omega (arith, i.0))

Lives-IsSingle : {t : Thread} → Lives t → IsSingle t
Lives-IsSingle born = (omega arith, λ e. refl)
Lives-IsSingle (lives before s) = step-IsSingle s (Lives-IsSingle before)

-- However `start` is called and the thread ends, an object never has two threads at a time.
Lives-running : (t : Thread) → Lives t → t.running ≤ 1
Lives-running t l = (Lives-IsSingle l).0
