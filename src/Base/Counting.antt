-- ===== src/Base/Counting.antt =====
-- How often something stands in a list, and in the values of an association list.
use Prim.Native.Nat.{ℕ, ◌+◌}
use mathlib.Core.Path.{◌≡◌}
use mathlib.Core.Bool.{Bool}
use mathlib.Core.Option.{none, some}
use mathlib.Core.List.{List, [], ◌∷◌, ◌++◌}
use native.Mathlib.Omega.{arith}
use yeti_lnp_resolver.Base.Tests.{if◌then◌else◌}
use yeti_lnp_resolver.Base.Assoc.{lookup, emplace, erase}

module _ {ℓ} {A : Type ℓ} (test : A → Bool) where
  abbrev pub count : List A → ℕ
  count [] = 0
  count (x ∷ xs) = (if test x then 1 else 0) + count xs

  pub count-append : (xs ys : List A) → count (xs ++ ys) ≡ count xs + count ys
  count-append [] ys = omega arith
  count-append (x ∷ xs) ys = omega (arith, count-append xs ys)

-- What `emplace` and `erase` do to the number of entries with such a value.
module _ {ℓ κ} {K : Type ℓ} {V : Type κ} (eq : K → K → Bool) (test : V → Bool) where
  pub count-emplace :
      (k : K) (v : V) (m : List (K × V))
      → lookup eq k m ≡ none
      → count (λ p. test p.1) (emplace eq k v m)
        ≡ count (λ p. test p.1) m + (if test v then 1 else 0)
  unfolding lookup emplace
  count-emplace k v [] h = omega arith
  count-emplace k v ((j, w) ∷ m) h = ground (arith, count-emplace k v m)

  pub count-erase :
      (k : K) (v : V) (m : List (K × V))
      → lookup eq k m ≡ some v
      → count (λ p. test p.1) m ≡ count (λ p. test p.1) (erase eq k m) + (if test v then 1 else 0)
  unfolding lookup erase
  count-erase k v [] h = cc
  count-erase k v ((j, w) ∷ m) h = ground (arith, count-erase k v m)
