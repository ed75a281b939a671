-- ===== src/Base/Assoc.antt =====
-- `std::map` and `std::unordered_map` as association lists over a Boolean equality of keys.
use Prim.Native.Nat.{suc}
use mathlib.Core.Path.{◌≡◌, refl, ◌∙◌, subst₂}
use mathlib.Core.Logic.{◌↔◌, inl, inr}
use mathlib.Core.Bool.{Bool, true, false}
use mathlib.Core.Option.{Option, none, some}
use mathlib.Core.List.{List, [], ◌∷◌}
use native.Mathlib.Omega.{arith}
use yeti_lnp_resolver.Base.Tests.{if◌then◌else◌, Bool-cases, or_else}
use yeti_lnp_resolver.Base.Lists.{length, All}

module _ {ℓ κ} {K : Type ℓ} {V : Type κ} (eq : K → K → Bool) where
  -- `find`
  unfoldable pub lookup : K → List (K × V) → Option V
  lookup k [] = none
  lookup k ((j, v) ∷ m) = if eq j k then some v else lookup k m

  -- `emplace`: an entry with the key stays as it is.
  unfoldable pub emplace : K → V → List (K × V) → List (K × V)
  emplace k v [] = (k, v) ∷ []
  emplace k v ((j, w) ∷ m) = if eq j k then (j, w) ∷ m else (j, w) ∷ emplace k v m

  unfoldable pub erase : K → List (K × V) → List (K × V)
  erase k [] = []
  erase k ((j, w) ∷ m) = if eq j k then m else (j, w) ∷ erase k m

  -- No key stands twice.
  abbrev pub HasUniqueKeys : List (K × V) → Type κ
  HasUniqueKeys [] = Unit
  HasUniqueKeys ((k, v) ∷ m) = (lookup k m ≡ none) × HasUniqueKeys m

module _ {ℓ κ} {K : Type ℓ} {V : Type κ} (eq : K → K → Bool)
    (eq_iff : (a b : K) → (eq a b ≡ true) ↔ (a ≡ b)) where
  pub lookup-emplace_self :
      (k : K) (v : V) (m : List (K × V))
      → lookup eq k m ≡ none
      → lookup eq k (emplace eq k v m) ≡ some v
  unfolding lookup emplace
  lookup-emplace_self k v [] h = ground (arith, eq_iff k k)
  lookup-emplace_self k v ((j, w) ∷ m) h = ground (arith, lookup-emplace_self k v m)

  pub lookup-emplace_other :
      (k j : K) (v : V) (m : List (K × V))
      → eq k j ≡ false
      → lookup eq j (emplace eq k v m) ≡ lookup eq j m
  unfolding lookup emplace
  lookup-emplace_other k j v [] h = rw h
  lookup-emplace_other k j v ((i, w) ∷ m) h =
      ground (arith, eq_iff i k, eq_iff i j, lookup-emplace_other k j v m h)

  -- An entry that is there stays; a new one is found under its key.
  pub lookup-emplace :
      (k j : K) (v : V) (m : List (K × V))
      → lookup eq j (emplace eq k v m) ≡ or_else (lookup eq j m) (if eq k j then some v else none)
  unfolding lookup emplace
  lookup-emplace k j v [] = refl
  lookup-emplace k j v ((i, w) ∷ m) =
      ground (arith, eq_iff i k, eq_iff i j, eq_iff k j, lookup-emplace k j v m)

  pub lookup-erase_other :
      (k j : K) (m : List (K × V)) → eq k j ≡ false → lookup eq j (erase eq k m) ≡ lookup eq j m
  unfolding lookup erase
  lookup-erase_other k j [] h = refl
  lookup-erase_other k j ((i, w) ∷ m) h =
      ground (arith, eq_iff i k, eq_iff i j, eq_iff k j, lookup-erase_other k j m h)

  pub lookup-erase_self :
      (k : K) (m : List (K × V)) → HasUniqueKeys eq m → lookup eq k (erase eq k m) ≡ none
  unfolding lookup erase
  lookup-erase_self k [] u = refl
  lookup-erase_self k ((i, w) ∷ m) u = ground (arith, eq_iff i k, lookup-erase_self k m u.1)

  pub emplace-HasUniqueKeys :
      (k : K) (v : V) (m : List (K × V)) → HasUniqueKeys eq m → HasUniqueKeys eq (emplace eq k v m)
  unfolding lookup emplace
  emplace-HasUniqueKeys k v [] u = (refl, tt)
  emplace-HasUniqueKeys k v ((i, w) ∷ m) u = elim (Bool-cases (eq i k)) [
    | inl same ↦ rw same u
    | inr differ ↦ rw differ (
      lookup-emplace_other k i v m (ground (arith, eq_iff i k, eq_iff k i)) ∙ u.0,
      emplace-HasUniqueKeys k v m u.1,
    )
  ]

  pub erase-HasUniqueKeys :
      (k : K) (m : List (K × V)) → HasUniqueKeys eq m → HasUniqueKeys eq (erase eq k m)
  unfolding lookup erase
  erase-HasUniqueKeys k [] u = tt
  erase-HasUniqueKeys k ((i, w) ∷ m) u = elim (Bool-cases (eq i k)) [
    | inl same ↦ rw same u.1
    | inr differ ↦ rw differ (
      lookup-erase_other k i m (ground (arith, eq_iff i k, eq_iff k i)) ∙ u.0,
      erase-HasUniqueKeys k m u.1,
    )
  ]

module _ {ℓ κ} {K : Type ℓ} {V : Type κ} (eq : K → K → Bool) where
  -- A key that is there is not taken again.
  pub emplace_present :
      (k : K) (v w : V) (m : List (K × V)) → lookup eq k m ≡ some w → emplace eq k v m ≡ m
  unfolding lookup emplace
  emplace_present k v w [] h = cc
  emplace_present k v w ((j, x) ∷ m) h = ground (arith, emplace_present k v w m)

  pub length-emplace :
      (k : K) (v : V) (m : List (K × V))
      → lookup eq k m ≡ none
      → length (emplace eq k v m) ≡ suc (length m)
  unfolding lookup emplace
  length-emplace k v [] h = refl
  length-emplace k v ((j, x) ∷ m) h = ground (arith, length-emplace k v m)

  pub length-erase :
      (k : K) (v : V) (m : List (K × V))
      → lookup eq k m ≡ some v
      → suc (length (erase eq k m)) ≡ length m
  unfolding lookup erase
  length-erase k v [] h = cc
  length-erase k v ((j, x) ∷ m) h = ground (arith, length-erase k v m)

  pub erase_absent : (k : K) (m : List (K × V)) → lookup eq k m ≡ none → erase eq k m ≡ m
  unfolding lookup erase
  erase_absent k [] h = refl
  erase_absent k ((j, x) ∷ m) h = ground (arith, erase_absent k m)

  pub emplace-All {μ} :
      (P : K × V → Type μ) (k : K) (v : V) (m : List (K × V))
      → P (k, v)
      → All P m
      → All P (emplace eq k v m)
  unfolding emplace
  emplace-All P k v [] p h = (p, tt)
  emplace-All P k v ((j, x) ∷ m) p h = elim (Bool-cases (eq j k)) [
    | inl same ↦ rw same h
    | inr differ ↦ rw differ (h.0, emplace-All P k v m p h.1)
  ]

  pub erase-All {μ} :
      (P : K × V → Type μ) (k : K) (m : List (K × V)) → All P m → All P (erase eq k m)
  unfolding erase
  erase-All P k [] h = tt
  erase-All P k ((j, x) ∷ m) h = elim (Bool-cases (eq j k)) [
    | inl same ↦ rw same h.1
    | inr differ ↦ rw differ (h.0, erase-All P k m h.1)
  ]

module _ {ℓ κ} {K : Type ℓ} {V : Type κ} (eq : K → K → Bool)
    (eq_iff : (a b : K) → (eq a b ≡ true) ↔ (a ≡ b)) where
  -- What holds of every entry holds of the one that is found.
  pub lookup-All {μ} :
      (P : K × V → Type μ) (k : K) (v : V) (m : List (K × V))
      → All P m
      → lookup eq k m ≡ some v
      → P (k, v)
  unfolding lookup
  lookup-All P k v [] h e = cc
  lookup-All P k v ((j, x) ∷ m) h e = elim (Bool-cases (eq j k)) [
    | inl same ↦
        let found : x ≡ v = cc (rw same at e) in
        subst₂ (λ i w. P (i, w)) ((eq_iff j k).0 same) found h.0
    | inr differ ↦ lookup-All P k v m h.1 (rw differ at e)
  ]

  -- A new entry can be taken out again.
  pub erase-emplace :
      (k : K) (v : V) (m : List (K × V)) → lookup eq k m ≡ none → erase eq k (emplace eq k v m) ≡ m
  unfolding lookup emplace erase
  erase-emplace k v [] h = ground (arith, eq_iff k k)
  erase-emplace k v ((j, w) ∷ m) h = ground (arith, erase-emplace k v m)
