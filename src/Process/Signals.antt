-- ===== src/Process/Signals.antt =====
-- src/sig.cpp: what a signal does, in the thread that it interrupts. The handler locks mutexes of the
-- program's own, which that thread may hold; those of the system's libraries are not modelled.
pub mod Outcomes
use yeti_lnp_resolver.Base.{
  Bool, true, false, ◌||◌, Option, none, some, List, [], ◌∷◌, map, if◌then◌else◌,
}
use yeti_lnp_resolver.Resolver.State.{Resolver, Driver, configure}
use yeti_lnp_resolver.Cache.{Cache, Database, Status, running, returned, thrown, undefined, write}
use yeti_lnp_resolver.Cache as Cache
use yeti_lnp_resolver.Dispatcher.{LoopTerminator, fire}
use yeti_lnp_resolver.Dispatcher as Dispatcher
use yeti_lnp_resolver.Threads.{Thread, Stopped, ended, stop_waits, undefined_detach}
use yeti_lnp_resolver.Threads as Threads

pub data Signal : Type 0 where
  sighup sigterm sigint : Signal

-- Which mutexes the interrupted thread holds: those of the singletons of the resolver, the cache and
-- the dispatcher; that of the drivers, as within `Resolver::resolve` and `parse_response`; `_m_td` and
-- that of `_stopped` of the cache's thread; and those of the cache's conditions `q_run` and `stopped`.
pub record Locks : Type 0 where
  pub resolver_instance : Bool
  pub drivers : Bool
  pub cache_instance : Bool
  pub thread_td : Bool
  pub thread_stopped : Bool
  pub q_run : Bool
  pub stopped : Bool
  pub dispatcher_instance : Bool

-- What the handler reaches. The terminator is null until the loop is entered.
pub record Reached (K : Type 0) : Type 0 where
  pub resolver : Resolver
  pub locks : Locks
  pub cache : Cache
  pub cache_thread : Thread
  pub terminator : Option (LoopTerminator K)

-- What the world does while the handler runs: the rows of the database, and the rounds that the
-- cache's thread still makes, none if it is the one that was interrupted.
pub record Meanwhile : Type 0 where
  pub rows : Option (List (Option Driver))
  pub rounds : List Database

-- The handler returns, waits for ever, uses a null pointer, or does what is undefined: it uses a
-- deleted connection or detaches a thread that never was.
pub data Handled (K : Type 0) : Type 0 where
  handled : Reached K → Handled K
  deadlocked null_pointer undefined_use : Handled K

-- The rest of `on_stop` once the cache's thread has returned, or a wait without end.
abbrev pub waited : Cache → Status → Option Cache
waited c returned = some (Cache.step Cache.disconnect c)
waited c _ = none

-- `_cache::on_stop`: `q_run.set`, `stopped.wait_for` and the end of the connection.
unfoldable pub on_stop : Locks → List Database → Cache → Option Cache
unfolding Cache.step Cache.run
on_stop locks rounds c =
    let after = Cache.run (Cache.stop ∷ map (λ db. write db) rounds) c in
    if locks.q_run || locks.stopped then none else waited after after.status

module _ {K : Type 0} where
  -- A lock that the interrupted thread holds is waited for for ever.
  abbrev pub locking : Bool → Handled K → Handled K
  locking is_held h = if is_held then deadlocked else h

  -- `configure`: the mutex is locked once the rows have been loaded.
  abbrev pub reload : Option (List (Option Driver)) → Reached K → Handled K
  reload none w = handled w
  reload (some rows) w =
      locking w.locks.drivers
        (handled (record w { resolver = (configure (some rows) w.resolver).0 }))

  abbrev pub stop_dispatcher : Reached K → Option (LoopTerminator K) → Handled K
  stop_dispatcher w none = null_pointer
  stop_dispatcher w (some t) = handled (record w { terminator = some t })

  -- `dispatcher::instance()->stop()`, after the cache was stopped.
  abbrev pub then_dispatcher : Reached K → Status → Handled K
  then_dispatcher w undefined = undefined_use
  then_dispatcher w _ =
      locking w.locks.dispatcher_instance (stop_dispatcher w (Dispatcher.stop w.terminator))

  abbrev pub after_stop : Reached K → Stopped Cache → Handled K
  after_stop w (ended (t, c)) = then_dispatcher (record w { cache_thread = t; cache = c }) c.status
  after_stop w stop_waits = deadlocked
  after_stop w undefined_detach = undefined_use

  -- `lnp_cache::instance()->stop()`, and the dispatcher's.
  abbrev pub stop_all : List Database → Reached K → Handled K
  stop_all rounds w = locking w.locks.cache_instance (
      locking w.locks.thread_td (
        locking w.locks.thread_stopped
          (after_stop w (Threads.stop (λ c. on_stop w.locks rounds c) (w.cache_thread, w.cache)))))

  unfoldable pub sig_handler : Meanwhile → Signal → Reached K → Handled K
  unfolding configure Threads.stop on_stop Dispatcher.stop
  sig_handler m sighup w = locking w.locks.resolver_instance (reload m.rows w)
  sig_handler m _ w = stop_all m.rounds w
