-- ===== src/Cache.antt =====
-- src/cache.cpp: the queue of entries and the thread that writes them to the database. The database
-- (libpqxx) is an argument of each round. `sync` and `on_stop` run in other threads: `sync` is two
-- steps, as its lock is released between them, and so is `on_stop`, as it waits between them.
pub mod Order
pub mod Safety
use yeti_lnp_resolver.Base.{Bool, true, false, ◌||◌, not, List, [], ◌∷◌, ◌++◌, if◌then◌else◌}
use yeti_lnp_resolver.Types.{CacheEntry}

-- The pointer `c`: null, a connection, or one that has been deleted.
pub data Connection : Type 0 where
  null live deleted : Connection

-- How `_connect_db` ended: it returned 1; it returned 0 with a connection that is not open or that
-- another exception left; with none, as the constructor threw; with one that was deleted, as
-- `broken_connection` came from the statements' preparation; or it threw.
pub data Connect : Type 0 where
  opened kept refused broken_later undefined_function : Connect

-- What the database does in a round: whether the check commits, how a connection attempt ends, and
-- whether the entry is written.
pub record Database : Type 0 where
  pub is_checked : Bool
  pub connect : Connect
  pub is_written : Bool

-- The thread runs, has returned, has thrown, or has used a connection that is not there.
pub data Status : Type 0 where
  running returned thrown undefined : Status

-- `handled` is the entries taken from the queue, in order, and whether each was written.
pub record Cache : Type 0 where
  pub queue : List CacheEntry
  pub q_run : Bool
  pub gotostop : Bool
  pub connection : Connection
  pub db_err : Bool
  pub status : Status
  pub handled : List (CacheEntry × Bool)

-- `_connect_db`, and `db_err = false` where it returned 1.
unfoldable pub reconnect : Connect → Cache → Cache
reconnect opened s = record s { connection = live; db_err = false }
reconnect kept s = record s { connection = live }
reconnect refused s = record s { connection = null }
reconnect broken_later s = record s { connection = deleted }
reconnect undefined_function s = record s { status = thrown }

-- "check/renew connection"
unfoldable pub renew : Database → Connection → Cache → Cache
unfolding reconnect
renew db null s = reconnect db.connect s
renew db deleted s = record s { status = undefined }
renew db live s =
    if db.is_checked
    then record s { db_err = false }
    else reconnect db.connect (record s { db_err = true; connection = deleted })

abbrev pub is_empty : List CacheEntry → Bool
is_empty [] = true
is_empty (e ∷ q) = false

-- `update_cache` of the entry that was taken.
unfoldable pub update : Database → Connection → CacheEntry → Cache → Cache
update db live e s = record s {
  handled = s.handled ++ ((e, db.is_written) ∷ []);
  db_err = (if db.is_written then s.db_err else true);
}
update db _ e s = record s { status = undefined; handled = s.handled ++ ((e, false) ∷ []) }

-- "process queue"
unfoldable pub process : Database → List CacheEntry → Cache → Cache
unfolding update
process db [] s = record s { q_run = false }
process db (e ∷ q) s =
    update db s.connection e
      (record s { queue = q; q_run = (if is_empty q then false else s.q_run) })

-- The round after the check: it sleeps, ends, or goes to the queue.
abbrev pub after_renewal : Database → Status → Bool → Cache → Cache
after_renewal db running false s = process db s.queue s
after_renewal db _ _ s = s

-- A round of the loop in `run`; `wait_for_to` returns `q_run`, at the latest after its timeout.
abbrev pub renewed : Database → Cache → Cache
renewed db s = if s.db_err || not s.q_run then renew db s.connection s else s

abbrev pub unless_stopping : Database → Bool → Cache → Cache
unless_stopping db true s = record s { status = returned }
unless_stopping db false s =
    after_renewal db (renewed db s).status (renewed db s).db_err (renewed db s)

unfoldable pub round : Database → Status → Cache → Cache
unfolding renew process
round db running s = unless_stopping db s.gotostop s
round db _ s = s

-- What `on_stop` does once `stopped` is set, which is where `run` returns; until then it waits.
abbrev pub disconnected : Status → Connection → Cache → Cache
disconnected returned deleted s = record s { status = undefined }
disconnected _ _ s = s

-- The steps of all threads: the two of `sync`, the two of `on_stop`, before and after its wait, and a
-- round. A connection that was closed stays where it is.
pub data Step : Type 0 where
  push : CacheEntry → Step
  signal stop disconnect : Step
  write : Database → Step

unfoldable pub step : Step → Cache → Cache
unfolding round
step (push e) s = record s { queue = s.queue ++ (e ∷ []) }
step signal s = record s { q_run = true }
step stop s = record s { gotostop = true; q_run = true }
step disconnect s = disconnected s.status s.connection s
step (write db) s = round db s.status s

unfoldable pub run : List Step → Cache → Cache
unfolding step
run [] s = s
run (x ∷ xs) s = run xs (step x s)

-- The thread once it has connected: without a connection that is open `run` throws.
abbrev pub start : Connect → Cache
start opened = record {
  queue = [];
  q_run = false;
  gotostop = false;
  connection = live;
  db_err = false;
  status = running;
  handled = [];
}
start _ = record {
  queue = [];
  q_run = false;
  gotostop = false;
  connection = null;
  db_err = false;
  status = thrown;
  handled = [];
}
