-- ===== src/Process/Signals/Outcomes.antt =====
-- When the handler of a signal returns.
use yeti_lnp_resolver.Base.{Bool, true, false, ◌&&◌, ◌||◌, not, Option, none, some, List, ◌∷◌}
use yeti_lnp_resolver.Resolver.State.{Driver}
use yeti_lnp_resolver.Cache.{
  Cache, Database, Connection, deleted, Status, running, returned, undefined,
}
use yeti_lnp_resolver.Dispatcher.{LoopTerminator, fire}
use yeti_lnp_resolver.Dispatcher as Dispatcher
use yeti_lnp_resolver.Threads.{Stopped, ended, stop_waits, undefined_detach}
use yeti_lnp_resolver.Threads as Threads
use yeti_lnp_resolver.Process.Signals.{Signal, sighup, Reached, Meanwhile, Handled, handled}

abbrev pub are_loaded : Option (List (Option Driver)) → Bool
are_loaded none = false
are_loaded (some rows) = true

abbrev pub is_entered : {K : Type 0} → Option (LoopTerminator K) → Bool
is_entered none = false
is_entered (some t) = true

abbrev pub is_there : Connection → Bool
is_there deleted = false
is_there _ = true

abbrev pub is_defined : Status → Bool
is_defined undefined = false
is_defined _ = true

-- The cache's thread has returned, or runs and makes another round.
abbrev pub will_return : Status → List Database → Bool
will_return returned rounds = true
will_return running (db ∷ rounds) = true
will_return _ _ = false

-- Nothing is waited for that does not come.
abbrev pub is_ended : {K : Type 0} → List Database → Reached K → Bool
is_ended rounds w =
    not w.locks.q_run
    && (not w.locks.stopped
        && (will_return w.cache.status rounds
            && (is_there w.cache.connection && w.cache_thread.is_td_set)))

abbrev pub is_free : {K : Type 0} → Meanwhile → Signal → Reached K → Bool
is_free m sighup w =
    not w.locks.resolver_instance && (not (are_loaded m.rows) || not w.locks.drivers)
is_free m _ w =
    not w.locks.cache_instance
    && (not w.locks.thread_td
        && (not w.locks.thread_stopped
            && (((w.cache_thread.stopped && is_defined w.cache.status) || is_ended m.rounds w)
                && (not w.locks.dispatcher_instance && is_entered w.terminator))))

abbrev pub does_return : {K : Type 0} → Handled K → Bool
does_return (handled w) = true
does_return _ = false

-- The cache after the rounds that follow a request to stop.
abbrev afterwards : Status → List Database → Cache → Cache
afterwards running (db ∷ rounds) c = record c { status = returned }
afterwards _ _ c = c

abbrev is_fine : Option Cache → Bool
is_fine none = false
is_fine (some c) = is_defined c.status
