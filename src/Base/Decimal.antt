-- ===== src/Base/Decimal.antt =====
-- Decimal text: `std::to_string` of an unsigned number, and `atoi`.
use Prim.Native.Nat.{ℕ, zero, suc, ◌+◌, ◌-◌, ◌*◌, ◌/◌, ◌%◌, ◌<◌}
use mathlib.Core.Path.{◌≡◌, refl, ap, ◌∙◌}
use mathlib.Core.Bool.{Bool, true, ◌&&◌, ◌||◌}
use mathlib.Core.List.{[], ◌∷◌}
use mathlib.Core.Logic.{inl, inr}
use native.Mathlib.Omega.{arith}
use yeti_lnp_resolver.Base.Tests.{ltb, leb, ◌==◌, if◌then◌else◌, Bool-cases}
use yeti_lnp_resolver.Base.Lists.{All}
use yeti_lnp_resolver.Base.Int.{ℤ, pos, negsuc}
use yeti_lnp_resolver.Base.ByteStrings.{Bytes}

-- The digits of `n`, in front of `rest`; `fuel` is more than the number of digits.
unfoldable pub digits_onto : ℕ → ℕ → Bytes → Bytes
digits_onto zero n rest = rest
digits_onto (suc fuel) n rest =
    let longer = digits_onto fuel (n / 10) ((48 + n % 10) ∷ rest) in
    if ltb n 10 then (48 + n) ∷ rest else longer

unfoldable pub to_string : ℕ → Bytes
unfolding digits_onto
to_string n = digits_onto (suc n) n []

-- `std::to_string` of an `int`
unfoldable pub int_to_string : ℤ → Bytes
unfolding to_string
int_to_string (pos n) = to_string n
int_to_string (negsuc n) = b'-' ∷ to_string (suc n)

abbrev pub is_digit : ℕ → Bool
is_digit c = leb b'0' c && leb c b'9'

-- `isspace` in the C locale
abbrev pub is_space : ℕ → Bool
is_space c = c == b' ' || (leb 9 c && leb c 13)

unfoldable pub read_digits : ℕ → Bytes → ℕ
read_digits acc [] = acc
read_digits acc (c ∷ cs) =
    let more = read_digits (10 * acc + (c - 48)) cs in if is_digit c then more else acc

abbrev pub negate : ℕ → ℤ
negate zero = pos 0
negate (suc n) = negsuc n

unfoldable pub atoi_sign : Bytes → ℤ
unfolding read_digits
atoi_sign [] = pos 0
atoi_sign (c ∷ cs) =
    if c == b'-'
    then negate (read_digits 0 cs)
    else if c == b'+'
    then pos (read_digits 0 cs)
    else pos (read_digits 0 (c ∷ cs))

-- `atoi`, for a value that an `int` holds.
unfoldable pub atoi : Bytes → ℤ
unfolding atoi_sign
atoi [] = pos 0
atoi (c ∷ cs) = let rest = atoi cs in if is_space c then rest else atoi_sign (c ∷ cs)

abbrev pub IsDigits : Bytes → Type 0
IsDigits = All (λ c. is_digit c ≡ true)

pub digits_onto-IsDigits :
    (fuel n : ℕ) (rest : Bytes) → IsDigits rest → IsDigits (digits_onto fuel n rest)
unfolding digits_onto
digits_onto-IsDigits zero n rest h = h
digits_onto-IsDigits (suc fuel) n rest h = elim (Bool-cases (ltb n 10)) [
  | inl short ↦ rw short (ground arith, h)
  | inr long ↦ rw long (digits_onto-IsDigits fuel (n / 10) _ (ground arith, h))
]

read_digits-digits_onto :
    (fuel n : ℕ) (rest : Bytes)
    → n < fuel
    → read_digits 0 (digits_onto fuel n rest) ≡ read_digits n rest
unfolding digits_onto
read_digits-digits_onto zero n rest h = elim h [ ]
read_digits-digits_onto (suc fuel) n rest h = elim (Bool-cases (ltb n 10)) [
  | inl short ↦ rw short (unfold read_digits in ground arith)
  | inr long ↦ rw long (
      read_digits-digits_onto fuel (n / 10) _ (ground arith) ∙ (unfold read_digits in ground arith))
]

pub read_digits-to_string : (n : ℕ) → read_digits 0 (to_string n) ≡ n
unfolding to_string
read_digits-to_string n =
    read_digits-digits_onto (suc n) n [] (omega arith) ∙ (unfold read_digits in refl)

pub to_string-IsDigits : (n : ℕ) → IsDigits (to_string n)
unfolding to_string
to_string-IsDigits n = digits_onto-IsDigits (suc n) n [] tt

atoi-IsDigits : (s : Bytes) → IsDigits s → atoi s ≡ pos (read_digits 0 s)
unfolding atoi read_digits
atoi-IsDigits [] h = refl
atoi-IsDigits (c ∷ cs) h = ground arith

-- `atoi` reads back what `to_string` writes.
pub atoi-to_string : (n : ℕ) → atoi (to_string n) ≡ pos n
atoi-to_string n =
    atoi-IsDigits (to_string n) (to_string-IsDigits n) ∙ ap pos (read_digits-to_string n)
