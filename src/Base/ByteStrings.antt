-- ===== src/Base/ByteStrings.antt =====
-- Byte strings, and little-endian words as a packed struct lays them out on amd64.
use Prim.Native.Nat.{ℕ, ◌+◌, ◌*◌, ◌/◌, ◌%◌, ◌<◌}
use Prim.Native.Char.{code}
use Prim.Native.String.{String}
use mathlib.Core.Path.{◌≡◌, refl}
use mathlib.Core.Logic.{◌↔◌}
use mathlib.Core.Bool.{Bool, true, false, ◌&&◌}
use mathlib.Core.List.{List, [], ◌∷◌, ◌++◌}
use native.Mathlib.Omega.{arith}
use yeti_lnp_resolver.Base.Tests.{◌==◌, if◌then◌else◌}
use yeti_lnp_resolver.Base.Lists.{get_or}

abbrev pub Bytes : Type 0
Bytes = List ℕ

-- The bytes of an ASCII text.
abbrev pub codes : String → Bytes
codes String.[] = []
codes (String.◌∷◌ c s) = code c ∷ codes s

-- `strcmp`, `std::string::operator==`
abbrev pub equal : Bytes → Bytes → Bool
equal [] [] = true
equal (x ∷ xs) (y ∷ ys) = x == y && equal xs ys
equal _ _ = false

pub equal_iff : (a b : Bytes) → (equal a b ≡ true) ↔ (a ≡ b)
equal_iff (x ∷ a) (y ∷ b) = ground (arith, equal_iff a b)
equal_iff _ _ = ground arith

pub equal_refl : (a : Bytes) → equal a a ≡ true
equal_refl a = (equal_iff a a).1 refl

-- `s.c_str()` read back as a C string: what stands before the first NUL.
unfoldable pub c_str : Bytes → Bytes
c_str [] = []
c_str (c ∷ cs) = if c == 0 then [] else c ∷ c_str cs

-- No byte of the text is `d`.
abbrev pub Lacks : ℕ → Bytes → Type 0
Lacks d [] = Unit
Lacks d (c ∷ cs) = ((c == d) ≡ false) × Lacks d cs

pub Lacks-append : (d : ℕ) (s t : Bytes) → Lacks d s → Lacks d t → Lacks d (s ++ t)
Lacks-append d [] t hs ht = ht
Lacks-append d (c ∷ cs) t hs ht = (hs.0, Lacks-append d cs t hs.1 ht)

pub c_str-Lacks : (s : Bytes) → Lacks 0 s → c_str s ≡ s
unfolding c_str
c_str-Lacks [] h = refl
c_str-Lacks (c ∷ cs) h = ground (arith, c_str-Lacks cs h.1)

-- Every byte is below 256.
abbrev pub AreBytes : Bytes → Type 0
AreBytes [] = Unit
AreBytes (c ∷ cs) = (c < 256) × AreBytes cs

-- A `uint32_t` of a packed struct, at a byte offset.
abbrev pub read_u32 : Bytes → ℕ → ℕ
read_u32 b o =
    get_or b o 0
    + 256 * get_or b (o + 1) 0
    + 65536 * get_or b (o + 2) 0
    + 16777216 * get_or b (o + 3) 0

abbrev pub write_u32 : ℕ → Bytes
write_u32 n = n % 256 ∷ n / 256 % 256 ∷ n / 65536 % 256 ∷ n / 16777216 % 256 ∷ []

pub read_u32-write_u32 :
    (n : ℕ) (rest : Bytes) → n < 4294967296 → read_u32 (write_u32 n ++ rest) 0 ≡ n
read_u32-write_u32 n rest h = omega arith
