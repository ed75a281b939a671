-- ===== src/Drivers/SipClient/Instance.antt =====
-- The single instance of the SIP client, and the end of a request.
use yeti_lnp_resolver.Base.{
  ◌≡◌, refl, inl, inr, Bool, true, false, Option, none, some, List, [], ◌∷◌, ◌++◌, Bytes, codes,
  ◌⊎◌, All,
}
use yeti_lnp_resolver.Threads.{Wakeup}
use yeti_lnp_resolver.Threads.Laws.{was_set, wait_for_to-was_set}
use yeti_lnp_resolver.Drivers.SipClient.{
  SipLibrary, SipClient, new_instance, initialize, ◌and_then◌, check, initialized, get_instance,
  Performed, reply_ok, reply_fail, performed, perform,
}

abbrev pub does_run : Option SipClient → Bool
does_run none = false
does_run (some c) = c.is_started

abbrev pub returns : Bytes ⊎ Unit {0} → Bool
returns (inl what) = false
returns (inr u) = true

initialized_runs :
    (c : SipClient) (x : Bytes ⊎ Unit {0})
    → c.is_started ≡ false
    → does_run (initialized c x).1 ≡ returns (initialized c x).0
initialized_runs c (inl what) h = h
initialized_runs c (inr u) h = refl

-- The first call of `getInstance` returns if and only if the library's main loop runs after it; every
-- later call returns, whether or not it runs: also if the first one has thrown.
get_instance-returns :
    (l m : SipLibrary) (b c : Bool) (agent other : Option Bytes)
    → let first = get_instance l b agent none in
      let second = get_instance m c other first.1 in
      (does_run first.1 ≡ returns first.0) × (second.1 ≡ first.1) × (returns second.0 ≡ true)
unfolding get_instance
get_instance-returns l m b c agent other =
    kept (initialize l and_then check b (codes "thread could not be started"))
  where
    kept :
        (x : Bytes ⊎ Unit {0})
        → let first = initialized (new_instance agent) x in
          let second = get_instance m c other first.1 in
          (does_run first.1 ≡ returns first.0) × (second.1 ≡ first.1) × (returns second.0 ≡ true)
    kept (inl what) = (refl, refl, refl)
    kept (inr u) = (refl, refl, refl)

abbrev pub if_set : Bool → Performed
if_set true = reply_ok
if_set false = reply_fail

performed-some : (b : Bool) → performed (some b) ≡ some (if_set b)
performed-some true = refl
performed-some false = refl

-- A request that is sent ends at the latest with the first wait that fails, at its timeout, and it
-- is answered if and only if the reply's handler has set the flag by then.
pub perform-was_set :
    (ws rest : List Wakeup) (w : Wakeup)
    → All (λ v. v.is_failed ≡ false) ws
    → w.is_failed ≡ true
    → perform true true (ws ++ (w ∷ rest)) ≡ some (if_set (was_set (ws ++ (w ∷ []))))
unfolding perform
perform-was_set ws rest w woken failed =
    rw (wait_for_to-was_set false ws rest w woken failed) (performed-some _)
