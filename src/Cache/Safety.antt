-- ===== src/Cache/Safety.antt =====
-- When the cache's thread uses a connection that is not there.
use yeti_lnp_resolver.Base.{
  ◌≡◌, ◌≢◌, refl, inl, inr, Bool, true, false, ◌||◌, not, List, [], ◌∷◌, Bool-cases, All,
}
use yeti_lnp_resolver.Types.{CacheEntry}
use yeti_lnp_resolver.Cache.{
  Cache, Database, Connection, null, live, deleted, Connect, opened, kept, refused, broken_later,
  undefined_function, Status, running, returned, thrown, undefined, reconnect, renew, update,
  process, after_renewal, unless_stopping, renewed, round, Step, push, signal, stop, disconnect,
  disconnected, write, step, run,
}

-- A thread that runs or has returned has a connection, or knows that it has none.
abbrev pub HasConnection : Connection → Bool → Type 0
HasConnection live b = Unit
HasConnection null b = b ≡ true
HasConnection deleted b = ⊥

abbrev pub IsDefined : Status → Connection → Bool → Type 0
IsDefined running c b = HasConnection c b
IsDefined returned c b = HasConnection c b
IsDefined undefined c b = ⊥
IsDefined _ c b = Unit

abbrev pub IsSound : Cache → Type 0
IsSound s = IsDefined s.status s.connection s.db_err

-- No connection is lost between its opening and the preparation of its statements.
abbrev pub IsSteady : Step → Type 0
IsSteady (write db) = db.connect ≢ broken_later
IsSteady _ = Unit

reconnect-IsSound :
    (c : Connect) (s : Cache)
    → c ≢ broken_later
    → s.status ≡ running
    → s.db_err ≡ true
    → IsSound (reconnect c s)
unfolding reconnect
reconnect-IsSound opened s ne r e = rw r tt
reconnect-IsSound kept s ne r e = rw r tt
reconnect-IsSound refused s ne r e = rw r e
reconnect-IsSound broken_later s ne r e = absurd (ne refl)
reconnect-IsSound undefined_function s ne r e = tt

renew-IsSound :
    (db : Database) (c : Connection) (s : Cache)
    → db.connect ≢ broken_later
    → s.status ≡ running
    → s.connection ≡ c
    → HasConnection c s.db_err
    → IsSound (renew db c s)
unfolding renew
renew-IsSound db null s ne r k h = reconnect-IsSound db.connect s ne r h
renew-IsSound db deleted s ne r k h = absurd h
renew-IsSound db live s ne r k h = elim (Bool-cases db.is_checked) [
  | inl checked ↦ rw (checked, r, k) tt
  | inr failed ↦ rw failed (reconnect-IsSound db.connect _ ne r refl)
]

update-IsSound :
    (db : Database) (c : Connection) (e : CacheEntry) (s : Cache)
    → s.status ≡ running
    → s.connection ≡ c
    → s.db_err ≡ false
    → HasConnection c s.db_err
    → IsSound (update db c e s)
unfolding update
update-IsSound db live e s r k b h = rw (r, k) tt
update-IsSound db null e s r k b h = cc
update-IsSound db deleted e s r k b h = absurd h

process-IsSound :
    (db : Database) (q : List CacheEntry) (s : Cache)
    → s.status ≡ running
    → s.db_err ≡ false
    → HasConnection s.connection s.db_err
    → IsSound (process db q s)
unfolding process
process-IsSound db [] s r b h = rw r h
process-IsSound db (e ∷ q) s r b h = update-IsSound db s.connection e _ r refl b h

after_renewal-IsSound :
    (db : Database) (st : Status) (b : Bool) (s : Cache)
    → s.status ≡ st
    → s.db_err ≡ b
    → IsSound s
    → IsSound (after_renewal db st b s)
after_renewal-IsSound db running false s r b h = process-IsSound db s.queue s r b (rw r at h)
after_renewal-IsSound db running true s r b h = h
after_renewal-IsSound db returned x s r b h = h
after_renewal-IsSound db thrown x s r b h = h
after_renewal-IsSound db undefined x s r b h = h

renewed-IsSound :
    (db : Database) (s : Cache)
    → db.connect ≢ broken_later
    → s.status ≡ running
    → IsSound s
    → IsSound (renewed db s)
renewed-IsSound db s ne r h = elim (Bool-cases (s.db_err || not s.q_run)) [
  | inl check ↦ rw check (renew-IsSound db s.connection s ne r refl (rw r at h))
  | inr fine ↦ rw fine h
]

unless_stopping-IsSound :
    (db : Database) (b : Bool) (s : Cache)
    → s.status ≡ running
    → db.connect ≢ broken_later
    → IsSound s
    → IsSound (unless_stopping db b s)
unless_stopping-IsSound db true s r ne h = rw r at h
unless_stopping-IsSound db false s r ne h =
    after_renewal-IsSound db (renewed db s).status (renewed db s).db_err (renewed db s) refl refl
      (renewed-IsSound db s ne r h)

round-IsSound :
    (db : Database) (st : Status) (s : Cache)
    → s.status ≡ st
    → db.connect ≢ broken_later
    → IsSound s
    → IsSound (round db st s)
unfolding round
round-IsSound db running s r ne h = unless_stopping-IsSound db s.gotostop s r ne h
round-IsSound db returned s r ne h = h
round-IsSound db thrown s r ne h = h
round-IsSound db undefined s r ne h = h

disconnected-IsSound :
    (st : Status) (c : Connection) (s : Cache)
    → s.status ≡ st
    → s.connection ≡ c
    → IsSound s
    → IsSound (disconnected st c s)
disconnected-IsSound returned deleted s r k h = absurd (rw (r, k) at h)
disconnected-IsSound returned null s r k h = h
disconnected-IsSound returned live s r k h = h
disconnected-IsSound running c s r k h = h
disconnected-IsSound thrown c s r k h = h
disconnected-IsSound undefined c s r k h = h

step-IsSound : (x : Step) (s : Cache) → IsSteady x → IsSound s → IsSound (step x s)
unfolding step
step-IsSound (push e) s ne h = h
step-IsSound signal s ne h = h
step-IsSound stop s ne h = h
step-IsSound disconnect s ne h = disconnected-IsSound s.status s.connection s refl refl h
step-IsSound (write db) s ne h = round-IsSound db s.status s refl ne h

-- However the threads' steps interleave, from a sound state neither the cache's thread nor the one
-- that stops it ever uses a connection that is null or deleted, if no connection attempt breaks
-- while the statements are prepared.
pub run-IsSound : (xs : List Step) (s : Cache) → All IsSteady xs → IsSound s → IsSound (run xs s)
unfolding run
run-IsSound [] s ne h = h
run-IsSound (x ∷ xs) s ne h = run-IsSound xs (step x s) ne.1 (step-IsSound x s ne.0 h)
