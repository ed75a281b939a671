-- ===== src/Singleton/Once.antt =====
-- All callers of a singleton get one object.
use yeti_lnp_resolver.Base.{
  ◌≡◌, refl, inl, inr, true, false, Option, none, some, List, [], ◌∷◌, ◌⊎◌, Bytes, All,
}
use yeti_lnp_resolver.Singleton.{Singleton, Called, gives, hangs, no_instance, get_instance}

module _ {T : Type 0} where
  -- What calls of `instance` give, each with what the constructor would do, and the state then.
  abbrev pub get_all : List (Bytes ⊎ T) → Singleton T → List (Called T) × Singleton T
  get_all [] s = ([], s)
  get_all (built ∷ bs) s =
      let now = get_instance built s in let later = get_all bs now.1 in (now.0 ∷ later.0, later.1)

  get_all_stored :
      (x : T) (bs : List (Bytes ⊎ T))
      → All (λ c. c ≡ gives x) (get_all bs (record { stored = some x; is_locked = false })).0
  unfolding get_instance
  get_all_stored x [] = tt
  get_all_stored x (built ∷ bs) = (refl, get_all_stored x bs)

  get_all_locked :
      (bs : List (Bytes ⊎ T)) (o : Option T)
      → All (λ c. c ≡ hangs) (get_all bs (record { stored = o; is_locked = true })).0
  unfolding get_instance
  get_all_locked [] o = tt
  get_all_locked (built ∷ bs) o = (refl, get_all_locked bs o)

  -- The object that the first call constructs is what all calls give, whatever a constructor would do
  -- later. If the first constructor throws, no later call returns.
  get_all_once :
      (x : T) (what : Bytes) (bs : List (Bytes ⊎ T))
      → All (λ c. c ≡ gives x) (get_all (inr x ∷ bs) no_instance).0
        × All (λ c. c ≡ hangs) (get_all bs (get_instance (inl what) no_instance).1).0
  unfolding get_instance
  get_all_once x what bs = ((refl, get_all_stored x bs), get_all_locked bs none)
