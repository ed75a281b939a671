-- ===== src/Base/Streams.antt =====
-- `std::getline` with a delimiter over a string stream, and the loop that splits a string by it.
use Prim.Native.Nat.{ℕ, zero, suc, ◌≤◌}
use mathlib.Core.Path.{◌≡◌, refl, sym, ap, ◌∙◌}
use mathlib.Core.Bool.{false}
use mathlib.Core.Option.{Option, none, some}
use mathlib.Core.List.{List, [], ◌∷◌, ◌++◌, append_assoc}
use mathlib.Core.Logic.{◌≢◌, ◌⊎◌, inl, inr}
use native.Mathlib.Omega.{arith}
use yeti_lnp_resolver.Base.Tests.{◌==◌, if◌then◌else◌, Bool-cases}
use yeti_lnp_resolver.Base.Lists.{length, All}
use yeti_lnp_resolver.Base.ByteStrings.{Bytes, Lacks}

abbrev pub push_byte : ℕ → Bytes × Bytes → Bytes × Bytes
push_byte c (token, rest) = (c ∷ token, rest)

-- What stands before the first delimiter, and what stands behind it.
unfoldable pub cut_at : ℕ → Bytes → Bytes × Bytes
cut_at d [] = ([], [])
cut_at d (c ∷ cs) = if c == d then ([], cs) else push_byte c (cut_at d cs)

-- At the end of the stream nothing is extracted, and `getline` fails.
unfoldable pub getline : ℕ → Bytes → Option (Bytes × Bytes)
unfolding cut_at
getline d [] = none
getline d (c ∷ cs) = some (cut_at d (c ∷ cs))

-- `while (getline(stream, token, d)) rv.push_back(token)`; every round takes a byte or more.
unfoldable pub split_loop : ℕ → ℕ → Bytes → List Bytes
unfolding cut_at
split_loop zero d s = []
split_loop (suc fuel) d [] = []
split_loop (suc fuel) d (c ∷ cs) = (cut_at d (c ∷ cs)).0 ∷ split_loop fuel d (cut_at d (c ∷ cs)).1

unfoldable pub split : ℕ → Bytes → List Bytes
unfolding split_loop
split d s = split_loop (length s) d s

-- The tokens with the delimiter between them.
abbrev pub join : ℕ → List Bytes → Bytes
join d [] = []
join d (t ∷ []) = t
join d (t ∷ u ∷ ts) = t ++ (d ∷ join d (u ∷ ts))

pub cut_at-append : (d : ℕ) (t rest : Bytes) → Lacks d t → cut_at d (t ++ (d ∷ rest)) ≡ (t, rest)
unfolding cut_at
cut_at-append d [] rest h = ground arith
cut_at-append d (c ∷ cs) rest h = rw (h.0, cut_at-append d cs rest h.1)

pub cut_at-Lacks : (d : ℕ) (t : Bytes) → Lacks d t → cut_at d t ≡ (t, [])
unfolding cut_at
cut_at-Lacks d [] h = refl
cut_at-Lacks d (c ∷ cs) h = rw (h.0, cut_at-Lacks d cs h.1)

-- `p` is a token free of the delimiter and a rest that is empty or stands behind a delimiter.
abbrev pub Cuts : ℕ → Bytes → Bytes × Bytes → Type 0
Cuts d s (t, rest) = Lacks d t × (((s ≡ t) × (rest ≡ [])) ⊎ (s ≡ t ++ (d ∷ rest)))

push_byte-Cuts :
    (d c : ℕ) (s : Bytes) (p : Bytes × Bytes)
    → (c == d) ≡ false
    → Cuts d s p
    → Cuts d (c ∷ s) (push_byte c p)
push_byte-Cuts d c s (t, rest) h (l, inl (e, r)) = ((h, l), inl (ap (◌∷◌ c) e, r))
push_byte-Cuts d c s (t, rest) h (l, inr e) = ((h, l), inr (ap (◌∷◌ c) e))

pub cut_at-Cuts : (d : ℕ) (s : Bytes) → Cuts d s (cut_at d s)
unfolding cut_at
cut_at-Cuts d [] = (tt, inl (refl, refl))
cut_at-Cuts d (c ∷ cs) = elim (Bool-cases (c == d)) [
  | inl here ↦ rw here (tt, inr (ground arith))
  | inr later ↦ rw later (push_byte-Cuts d c cs (cut_at d cs) later (cut_at-Cuts d cs))
]

push_byte-length : (c : ℕ) (p : Bytes × Bytes) → length (push_byte c p).1 ≡ length p.1
push_byte-length c (t, rest) = refl

cut_at-le : (d : ℕ) (s : Bytes) → length (cut_at d s).1 ≤ length s
unfolding cut_at
cut_at-le d [] = omega arith
cut_at-le d (c ∷ cs) = ground (arith, cut_at-le d cs, push_byte-length c (cut_at d cs))

pub cut_at-lt : (d c : ℕ) (cs : Bytes) → length (cut_at d (c ∷ cs)).1 ≤ length cs
unfolding cut_at
cut_at-lt d c cs = ground (arith, cut_at-le d cs, push_byte-length c (cut_at d cs))

-- With as much fuel as the string is long the loop ends by `getline`, whatever is left.
pub split_loop-enough :
    (f g d : ℕ) (s : Bytes) → length s ≤ f → length s ≤ g → split_loop f d s ≡ split_loop g d s
unfolding split_loop
split_loop-enough zero zero d s hf hg = refl
split_loop-enough zero (suc g) d [] hf hg = refl
split_loop-enough zero (suc g) d (c ∷ cs) hf hg = elim hf [ ]
split_loop-enough (suc f) zero d [] hf hg = refl
split_loop-enough (suc f) zero d (c ∷ cs) hf hg = elim hg [ ]
split_loop-enough (suc f) (suc g) d [] hf hg = refl
split_loop-enough (suc f) (suc g) d (c ∷ cs) hf hg =
    ap (◌∷◌ (cut_at d (c ∷ cs)).0) (
      split_loop-enough f g d _ (omega (arith, cut_at-lt d c cs)) (omega (arith, cut_at-lt d c cs)))

-- One round of the loop, with the fuel gone.
pub split_cons :
    (d c : ℕ) (cs : Bytes)
    → split d (c ∷ cs) ≡ (cut_at d (c ∷ cs)).0 ∷ split d (cut_at d (c ∷ cs)).1
unfolding split split_loop
split_cons d c cs =
    ap (◌∷◌ (cut_at d (c ∷ cs)).0)
      (split_loop-enough (length cs) _ d _ (cut_at-lt d c cs) (omega arith))

pub split-append :
    (d : ℕ) (t rest : Bytes) → Lacks d t → split d (t ++ (d ∷ rest)) ≡ t ∷ split d rest
split-append d [] rest h =
    split_cons d d rest ∙ ap (λ p. p.0 ∷ split d p.1) (cut_at-append d [] rest tt)
split-append d (c ∷ cs) rest h =
    split_cons d c (cs ++ (d ∷ rest))
    ∙ ap (λ p. p.0 ∷ split d p.1) (cut_at-append d (c ∷ cs) rest h)

pub split-nil : (d : ℕ) → split d [] ≡ []
unfolding split split_loop
split-nil d = refl

pub split-Lacks : (d : ℕ) (t : Bytes) → Lacks d t → t ≢ [] → split d t ≡ t ∷ []
split-Lacks d [] h ne = absurd (ne refl)
split-Lacks d (c ∷ cs) h ne =
    split_cons d c cs
    ∙ ap (λ p. p.0 ∷ split d p.1) (cut_at-Lacks d (c ∷ cs) h)
    ∙ ap (◌∷◌ (c ∷ cs)) (split-nil d)

-- The tokens of `s` are free of the delimiter, and joined by it they give `s` again, up to one
-- delimiter at the end.
abbrev pub Splits : ℕ → Bytes → List Bytes → Type 0
Splits d s ts = All (Lacks d) ts × ((join d ts ≡ s) ⊎ (join d ts ++ (d ∷ []) ≡ s))

Splits-cons :
    (d : ℕ) (t rest : Bytes) (ts : List Bytes)
    → Lacks d t
    → ts ≢ []
    → Splits d rest ts
    → Splits d (t ++ (d ∷ rest)) (t ∷ ts)
Splits-cons d t rest [] lt ne p = absurd (ne refl)
Splits-cons d t rest (u ∷ ts) lt ne (l, inl e) = ((lt, l), inl (ap (λ r. t ++ (d ∷ r)) e))
Splits-cons d t rest (u ∷ ts) lt ne (l, inr e) =
    ((lt, l), inr (append_assoc t _ _ ∙ ap (λ r. t ++ (d ∷ r)) e))

split-ne-nil : (d c : ℕ) (cs : Bytes) → split d (c ∷ cs) ≢ []
split-ne-nil d c cs e = cc (split_cons d c cs)

-- Splitting loses nothing but a delimiter at the end, and leaves no delimiter in a token. (By
-- induction on a bound of the length.)
split-Splits_below : (n d : ℕ) (s : Bytes) → length s ≤ n → Splits d s (split d s)
split-Splits_below n d [] h = rw (split-nil d) (tt, inl refl)
split-Splits_below zero d (c ∷ cs) h = elim h [ ]
split-Splits_below (suc n) d (c ∷ cs) h = rw (split_cons d c cs) (
    go (cut_at d (c ∷ cs)) (cut_at-Cuts d (c ∷ cs))
      (split-Splits_below n d (cut_at d (c ∷ cs)).1 (omega (arith, cut_at-lt d c cs))))
  where
    go :
        (p : Bytes × Bytes)
        → Cuts d (c ∷ cs) p
        → Splits d p.1 (split d p.1)
        → Splits d (c ∷ cs) (p.0 ∷ split d p.1)
    go (t, []) (l, inl (e, r)) ih = rw (split-nil d) ((l, tt), inl (sym e))
    go (t, x ∷ xs) (l, inl (e, r)) ih = cc
    go (t, []) (l, inr e) ih = rw (split-nil d) ((l, tt), inr (sym e))
    go (t, x ∷ xs) (l, inr e) ih =
        rw e (Splits-cons d t (x ∷ xs) (split d (x ∷ xs)) l (split-ne-nil d x xs) ih)

pub split-Splits : (d : ℕ) (s : Bytes) → Splits d s (split d s)
split-Splits d s = split-Splits_below (length s) d s (omega arith)
