-- ===== src/UriParser/Safety.antt =====
-- Which addresses `parseAddr` can take without writing past its arrays.
use yeti_lnp_resolver.Base.{
  ℕ, suc, ◌+◌, ◌≤◌, ◌<◌, ◌≡◌, inl, inr, refl, Option, none, some, [], ◌∷◌, Bytes, arith, ◌==◌,
  length, Lacks, Bool-cases, false, length-drop, codes, ge→ltb,
}
use yeti_lnp_resolver.UriParser.{
  ParsedAddr, failed, overflow, parsed, parse_addr, find_proto, find_colon, push_front, starts_with,
  copy_component, take_proto, take_host, is_bad_length,
}

-- What stands before and behind a match is no longer than `n`.
abbrev Fits : ℕ → Option (Bytes × Bytes) → Type 0
Fits n none = Unit
Fits n (some (before, behind)) = length before + length behind ≤ n

push_front-Fits : (n c : ℕ) (o : Option (Bytes × Bytes)) → Fits n o → Fits (suc n) (push_front c o)
push_front-Fits n c none h = tt
push_front-Fits n c (some (before, behind)) h = omega arith

find_proto-Fits : (addr : Bytes) → Fits (length addr) (find_proto addr)
unfolding find_proto
find_proto-Fits [] = tt
find_proto-Fits (c ∷ cs) = elim (Bool-cases (starts_with (codes "://") (c ∷ cs))) [
  | inl here ↦ rw here (omega (arith, length-drop 3 (c ∷ cs)))
  | inr later ↦ rw later (push_front-Fits (length cs) c (find_proto cs) (find_proto-Fits cs))
]

find_colon-Fits : (addr : Bytes) → Fits (length addr) (find_colon addr)
unfolding find_colon
find_colon-Fits [] = tt
find_colon-Fits (c ∷ cs) = elim (Bool-cases (c == b':')) [
  | inl here ↦ rw here (omega arith)
  | inr later ↦ rw later (push_front-Fits (length cs) c (find_colon cs) (find_colon-Fits cs))
]

pub find_colon-Lacks : (s : Bytes) → Lacks b':' s → find_colon s ≡ none
unfolding find_colon
find_colon-Lacks [] h = refl
find_colon-Lacks (c ∷ cs) h = rw (h.0, find_colon-Lacks cs h.1)

pub find_proto-Lacks : (s : Bytes) → Lacks b':' s → find_proto s ≡ none
unfolding find_proto
find_proto-Lacks [] h = refl
find_proto-Lacks (c ∷ cs) h =
    let no_colon : (b':' == c) ≡ false = ground arith in rw (no_colon, find_proto-Lacks cs h.1)

copy_component-length : (size : ℕ) (s : Bytes) → length (copy_component size s) ≤ size
copy_component-length size s = ground arith

-- The components fit their arrays: a protocol of at most 16 bytes and a NUL, and a host of at most
-- 65 bytes, for which there may be no room left for a NUL.
abbrev pub FitsArrays : ParsedAddr → Type 0
FitsArrays failed = Unit
FitsArrays overflow = ⊥
FitsArrays (parsed u) = (length u.proto ≤ 16) × (length u.host ≤ 65)

take_host-FitsArrays :
    (proto addr : Bytes) (o : Option (Bytes × Bytes))
    → length proto ≤ 16
    → length addr ≤ 65
    → FitsArrays (take_host proto addr o)
unfolding take_host
take_host-FitsArrays proto addr none hp ha = rw (ge→ltb 65 (length addr) ha) (hp, ha)
take_host-FitsArrays proto addr (some (before, behind)) hp ha =
    (hp, omega (arith, copy_component-length 64 before))

take_proto-length :
    (addr : Bytes) (o : Option (Bytes × Bytes))
    → Fits (length addr) o
    → (length (take_proto addr o).0 ≤ 16) × (length (take_proto addr o).1 ≤ length addr)
unfolding take_proto
take_proto-length addr none h = omega arith
take_proto-length addr (some (before, behind)) h = (copy_component-length 16 before, omega arith)

-- For an address of at most 65 bytes nothing is written past the arrays of the result.
parse_addr-FitsArrays : (addr : Bytes) → length addr ≤ 65 → FitsArrays (parse_addr (some addr))
unfolding parse_addr
parse_addr-FitsArrays addr h =
    let (short, rest) = take_proto-length addr (find_proto addr) (find_proto-Fits addr) in
    let fits : length (take_proto addr (find_proto addr)).1 ≤ 65 = omega arith in
    elim (Bool-cases (is_bad_length addr)) [
      | inl bad ↦ rw bad tt
      | inr good ↦ rw good (take_host-FitsArrays _ _ _ short fits)
    ]

-- An address of 66 to 127 bytes without a colon is written past the end of `host`.
parse_addr-overflow :
    (addr : Bytes)
    → Lacks b':' addr
    → 65 < length addr
    → length addr < 128
    → parse_addr (some addr) ≡ overflow
unfolding parse_addr
parse_addr-overflow addr lacks long short =
    ground (arith, find_proto-Lacks addr lacks, find_colon-Lacks addr lacks)
