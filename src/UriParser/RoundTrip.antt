-- ===== src/UriParser/RoundTrip.antt =====
-- `parseAddr` on the addresses that a configuration may hold.
use yeti_lnp_resolver.Base.{
  ℕ, ◌≤◌, ◌<◌, ◌≡◌, refl, none, some, [], ◌∷◌, ◌++◌, Bytes, codes, arith, ◌==◌, length, Lacks, pos,
  length-append, false,
}
use yeti_lnp_resolver.Base.Decimal.{to_string, IsDigits, to_string-IsDigits, atoi-to_string}
use yeti_lnp_resolver.UriParser.{parsed, parse_addr, find_proto, find_colon, starts_with}
use yeti_lnp_resolver.UriParser.Safety.{find_proto-Lacks}

find_colon-append :
    (s rest : Bytes) → Lacks b':' s → find_colon (s ++ (b':' ∷ rest)) ≡ some (s, rest)
unfolding find_colon
find_colon-append [] rest h = refl
find_colon-append (c ∷ cs) rest h = rw (h.0, find_colon-append cs rest h.1)

find_proto-append :
    (s rest : Bytes) → Lacks b':' s → find_proto (s ++ (codes "://" ++ rest)) ≡ some (s, rest)
unfolding find_proto
find_proto-append [] rest h = refl
find_proto-append (c ∷ cs) rest h =
    let no_colon : (b':' == c) ≡ false = ground arith in
    rw (no_colon, find_proto-append cs rest h.1)

IsDigits-Lacks : (s : Bytes) → IsDigits s → Lacks b':' s
IsDigits-Lacks [] h = tt
IsDigits-Lacks (c ∷ cs) h = (ground arith, IsDigits-Lacks cs h.1)

not_slash : (s : Bytes) → IsDigits s → starts_with (codes "//") s ≡ false
not_slash [] h = refl
not_slash (c ∷ cs) h = ground arith

-- A host with a port holds no "://".
find_proto-host :
    (s digits : Bytes) → Lacks b':' s → IsDigits digits → find_proto (s ++ (b':' ∷ digits)) ≡ none
unfolding find_proto
find_proto-host [] digits h d =
    rw (not_slash digits d, find_proto-Lacks digits (IsDigits-Lacks digits d))
find_proto-host (c ∷ cs) digits h d =
    let no_colon : (b':' == c) ≡ false = ground arith in
    rw (no_colon, find_proto-host cs digits h.1 d)

-- An address `host:port` of at most 127 bytes, with a host of 1 to 64 bytes without a colon, is
-- parsed into these two and no protocol.
pub parse_addr-host_port :
    (host : Bytes) (port : ℕ)
    → Lacks b':' host
    → 0 < length host
    → length host ≤ 64
    → length (host ++ (b':' ∷ to_string port)) < 128
    → parse_addr (some (host ++ (b':' ∷ to_string port)))
      ≡ parsed (record { proto = []; host = host; port = pos port })
unfolding parse_addr
parse_addr-host_port host port lacks some_host short total =
    rw
      (
        find_proto-host host (to_string port) lacks (to_string-IsDigits port),
        find_colon-append host (to_string port) lacks,
        atoi-to_string port,
      )
      (ground (arith, length-append host (b':' ∷ to_string port)))

-- An address `proto://host:port` of at most 127 bytes, with a protocol of 1 to 16 and a host of 1
-- to 64 bytes without colons, is parsed into these three.
pub parse_addr-proto :
    (proto host : Bytes) (port : ℕ)
    → Lacks b':' proto
    → 0 < length proto
    → length proto ≤ 16
    → Lacks b':' host
    → 0 < length host
    → length host ≤ 64
    → length (proto ++ (codes "://" ++ (host ++ (b':' ∷ to_string port)))) < 128
    → parse_addr (some (proto ++ (codes "://" ++ (host ++ (b':' ∷ to_string port)))))
      ≡ parsed (record { proto = proto; host = host; port = pos port })
unfolding parse_addr
parse_addr-proto proto host port lp p_some p_short lacks some_host short total =
    rw
      (
        find_proto-append proto (host ++ (b':' ∷ to_string port)) lp,
        find_colon-append host (to_string port) lacks,
        atoi-to_string port,
      )
      (ground (arith, length-append proto (codes "://" ++ (host ++ (b':' ∷ to_string port)))))

-- A protocol longer than its array is dropped, and the address is taken for one without.
pub parse_addr_long_proto :
    (proto host : Bytes) (port : ℕ)
    → Lacks b':' proto
    → 16 < length proto
    → Lacks b':' host
    → 0 < length host
    → length host ≤ 64
    → length (proto ++ (codes "://" ++ (host ++ (b':' ∷ to_string port)))) < 128
    → parse_addr (some (proto ++ (codes "://" ++ (host ++ (b':' ∷ to_string port)))))
      ≡ parsed (record { proto = []; host = host; port = pos port })
unfolding parse_addr
parse_addr_long_proto proto host port lp long lacks some_host short total =
    rw
      (
        find_proto-append proto (host ++ (b':' ∷ to_string port)) lp,
        find_colon-append host (to_string port) lacks,
        atoi-to_string port,
      )
      (ground (arith, length-append proto (codes "://" ++ (host ++ (b':' ∷ to_string port)))))
