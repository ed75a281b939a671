-- ===== src/Cache/Order.antt =====
-- The order in which the cache's entries leave its queue.
use mathlib.Core.List.{append-nil, append_assoc}
use yeti_lnp_resolver.Base.{
  ◌≡◌, refl, sym, ap, ◌∙◌, inl, inr, Bool, true, false, ◌||◌, not, List, [], ◌∷◌, ◌++◌, Bool-cases,
}
use yeti_lnp_resolver.Types.{CacheEntry}
use yeti_lnp_resolver.Cache.{
  Cache, Database, Connection, null, live, deleted, Connect, opened, kept, refused, broken_later,
  undefined_function, Status, running, returned, thrown, undefined, reconnect, renew, update,
  process, after_renewal, unless_stopping, renewed, round, Step, push, signal, stop, disconnect,
  disconnected, write, step, run, start,
}

-- The entries that were taken, whether they were written or not, and those still in the queue.
abbrev pub taken : List (CacheEntry × Bool) → List CacheEntry
taken [] = []
taken ((e, b) ∷ hs) = e ∷ taken hs

abbrev pub entries : Cache → List CacheEntry
entries s = taken s.handled ++ s.queue

-- The entries that `sync` was given.
abbrev pub pushed : List Step → List CacheEntry
pushed [] = []
pushed (push e ∷ xs) = e ∷ pushed xs
pushed (x ∷ xs) = pushed xs

taken-snoc :
    (hs : List (CacheEntry × Bool)) (e : CacheEntry) (b : Bool) (q : List CacheEntry)
    → taken (hs ++ ((e, b) ∷ [])) ++ q ≡ taken hs ++ (e ∷ q)
taken-snoc [] e b q = refl
taken-snoc ((x, c) ∷ hs) e b q = ap (λ l. x ∷ l) (taken-snoc hs e b q)

reconnect-entries : (c : Connect) (s : Cache) → entries (reconnect c s) ≡ entries s
unfolding reconnect
reconnect-entries opened s = refl
reconnect-entries kept s = refl
reconnect-entries refused s = refl
reconnect-entries broken_later s = refl
reconnect-entries undefined_function s = refl

renew-entries : (db : Database) (c : Connection) (s : Cache) → entries (renew db c s) ≡ entries s
unfolding renew
renew-entries db null s = reconnect-entries db.connect s
renew-entries db deleted s = refl
renew-entries db live s = elim (Bool-cases db.is_checked) [
  | inl checked ↦ rw checked refl
  | inr failed ↦
      rw failed (reconnect-entries db.connect (record s { db_err = true; connection = deleted }))
]

update-entries :
    (db : Database) (c : Connection) (e : CacheEntry) (s : Cache)
    → entries (update db c e s) ≡ taken s.handled ++ (e ∷ s.queue)
unfolding update
update-entries db live e s = taken-snoc s.handled e db.is_written s.queue
update-entries db null e s = taken-snoc s.handled e false s.queue
update-entries db deleted e s = taken-snoc s.handled e false s.queue

process-entries :
    (db : Database) (q : List CacheEntry) (s : Cache)
    → s.queue ≡ q
    → entries (process db q s) ≡ entries s
unfolding process
process-entries db [] s h = refl
process-entries db (e ∷ q) s h =
    update-entries db s.connection e _ ∙ ap (λ l. taken s.handled ++ l) (sym h)

after_renewal-entries :
    (db : Database) (st : Status) (b : Bool) (s : Cache)
    → entries (after_renewal db st b s) ≡ entries s
after_renewal-entries db running false s = process-entries db s.queue s refl
after_renewal-entries db running true s = refl
after_renewal-entries db returned b s = refl
after_renewal-entries db thrown b s = refl
after_renewal-entries db undefined b s = refl

renewed-entries : (db : Database) (s : Cache) → entries (renewed db s) ≡ entries s
renewed-entries db s = elim (Bool-cases (s.db_err || not s.q_run)) [
  | inl check ↦ rw check (renew-entries db s.connection s)
  | inr fine ↦ rw fine refl
]

unless_stopping-entries :
    (db : Database) (b : Bool) (s : Cache) → entries (unless_stopping db b s) ≡ entries s
unless_stopping-entries db true s = refl
unless_stopping-entries db false s =
    after_renewal-entries db (renewed db s).status (renewed db s).db_err (renewed db s)
    ∙ renewed-entries db s

round-entries : (db : Database) (st : Status) (s : Cache) → entries (round db st s) ≡ entries s
unfolding round
round-entries db running s = unless_stopping-entries db s.gotostop s
round-entries db returned s = refl
round-entries db thrown s = refl
round-entries db undefined s = refl

disconnected-entries :
    (st : Status) (c : Connection) (s : Cache) → entries (disconnected st c s) ≡ entries s
disconnected-entries returned deleted s = refl
disconnected-entries returned null s = refl
disconnected-entries returned live s = refl
disconnected-entries running c s = refl
disconnected-entries thrown c s = refl
disconnected-entries undefined c s = refl

step-entries : (x : Step) (s : Cache) → entries (step x s) ≡ entries s ++ pushed (x ∷ [])
unfolding step
step-entries (push e) s = sym (append_assoc (taken s.handled) s.queue (e ∷ []))
step-entries signal s = sym (append-nil (entries s))
step-entries stop s = sym (append-nil (entries s))
step-entries disconnect s =
    disconnected-entries s.status s.connection s ∙ sym (append-nil (entries s))
step-entries (write db) s = round-entries db s.status s ∙ sym (append-nil (entries s))

pushed-cons : (x : Step) (xs : List Step) → pushed (x ∷ []) ++ pushed xs ≡ pushed (x ∷ xs)
pushed-cons (push e) xs = refl
pushed-cons signal xs = refl
pushed-cons stop xs = refl
pushed-cons disconnect xs = refl
pushed-cons (write db) xs = refl

run-entries : (xs : List Step) (s : Cache) → entries (run xs s) ≡ entries s ++ pushed xs
unfolding run
run-entries [] s = sym (append-nil (entries s))
run-entries (x ∷ xs) s =
    run-entries xs (step x s)
    ∙ ap (λ l. l ++ pushed xs) (step-entries x s)
    ∙ append_assoc (entries s) (pushed (x ∷ [])) (pushed xs)
    ∙ ap (λ l. entries s ++ l) (pushed-cons x xs)

-- However the threads' steps interleave and whatever the database does, the entries taken from the
-- queue since the thread has connected, followed by those still in it, are the entries given to
-- `sync`, in order and each once.
pub run-pushed :
    (xs : List Step)
    → taken (run xs (start opened)).handled ++ (run xs (start opened)).queue ≡ pushed xs
run-pushed xs = run-entries xs (start opened)
