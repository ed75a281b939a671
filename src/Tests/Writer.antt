-- ===== src/Tests/Writer.antt =====
-- The cache's thread: an entry that is written, and one that is lost.
use yeti_lnp_resolver.Base.{◌≡◌, true, false, List, [], ◌∷◌, ◌++◌, codes, pos}
use yeti_lnp_resolver.Types.{CacheEntry}
use yeti_lnp_resolver.Cache.{Database, opened, refused, Step, push, signal, write, run, start}
use yeti_lnp_resolver.Cache.Order.{taken, run-pushed}
use yeti_lnp_resolver.Cache.Safety.{IsSound, run-IsSound}

abbrev entry : CacheEntry
entry = record { database_id = pos 1; dst = codes "12"; lrn = codes "99"; raw = []; tag = [] }

abbrev working : Database
working = record { is_checked = true; connect = opened; is_written = true }

abbrev broken : Database
broken = record { is_checked = false; connect = refused; is_written = false }

abbrev steps : List Step
steps = push entry ∷ signal ∷ write working ∷ write broken ∷ push entry ∷ signal ∷ write broken ∷ []

run-pushed_example :
    taken (run steps (start opened)).handled ++ (run steps (start opened)).queue
    ≡ entry ∷ entry ∷ []
run-pushed_example = run-pushed steps

run-IsSound_example : IsSound (run steps (start opened))
run-IsSound_example =
    run-IsSound steps (start opened)
      (tt, (tt, ((λ e. cc), ((λ e. cc), (tt, (tt, ((λ e. cc), tt))))))) tt
