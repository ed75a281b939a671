-- ===== src/UriParser.antt =====
-- `parseAddr` of src/libs/uri_parser.c. A C string is its bytes before the NUL; a fixed array is
-- what has been written to it, over the zeros of `memset`.
pub mod Safety
pub mod RoundTrip
use yeti_lnp_resolver.Base.{
  ℕ, zero, suc, Bool, true, false, ◌&&◌, ◌||◌, Option, none, some, List, [], ◌∷◌, Bytes, codes, ltb,
  leb, ◌==◌, if◌then◌else◌, length, drop, ℤ, pos,
}
use yeti_lnp_resolver.Base.Decimal.{atoi}

abbrev pub sockaddr_size : ℕ
sockaddr_size = 128

abbrev pub protocol_size : ℕ
protocol_size = 16

abbrev pub host_size : ℕ
host_size = 64

pub record UriComponents : Type 0 where
  pub proto : Bytes
  pub host : Bytes
  pub port : ℤ

-- -1, 0 with the components, or a write past the end of the array `host`.
pub data ParsedAddr : Type 0 where
  failed : ParsedAddr
  overflow : ParsedAddr
  parsed : UriComponents → ParsedAddr

abbrev pub starts_with : Bytes → Bytes → Bool
starts_with [] s = true
starts_with (c ∷ p) [] = false
starts_with (c ∷ p) (d ∷ s) = c == d && starts_with p s

abbrev pub push_front : ℕ → Option (Bytes × Bytes) → Option (Bytes × Bytes)
push_front c none = none
push_front c (some (before, behind)) = some (c ∷ before, behind)

-- `strstr(addr, "://")`: what stands before the first match, and what stands behind it.
unfoldable pub find_proto : Bytes → Option (Bytes × Bytes)
find_proto [] = none
find_proto (c ∷ cs) =
    if starts_with (codes "://") (c ∷ cs)
    then some ([], drop 3 (c ∷ cs))
    else push_front c (find_proto cs)

-- `strchr(addr, ':')`
unfoldable pub find_colon : Bytes → Option (Bytes × Bytes)
find_colon [] = none
find_colon (c ∷ cs) = if c == b':' then some ([], cs) else push_front c (find_colon cs)

-- `if (comp_sz > 0 && comp_sz <= size) strncpy(field, addr, comp_sz)`
abbrev pub copy_component : ℕ → Bytes → Bytes
copy_component size s = if ltb 0 (length s) && leb (length s) size then s else []

-- "parse protocol": the component, and where `addr` points then.
unfoldable pub take_proto : Bytes → Option (Bytes × Bytes) → Bytes × Bytes
take_proto addr none = ([], addr)
take_proto addr (some (before, behind)) = (copy_component protocol_size before, behind)

unfoldable pub parse_proto : Bytes → Bytes × Bytes
unfolding find_proto take_proto
parse_proto addr = take_proto addr (find_proto addr)

-- "parse host". The last `strncpy(out->host, addr, strlen(addr))` is not guarded, and `host` has
-- `HOST_SIZE + 1` bytes.
unfoldable pub take_host : Bytes → Bytes → Option (Bytes × Bytes) → ParsedAddr
take_host proto addr (some (before, behind)) =
    parsed (record { proto = proto; host = copy_component host_size before; port = atoi behind })
take_host proto addr none =
    if ltb (suc host_size) (length addr)
    then overflow
    else parsed (record { proto = proto; host = addr; port = pos 0 })

unfoldable pub parse_host : Bytes → Bytes → ParsedAddr
unfolding find_colon take_host
parse_host proto addr = take_host proto addr (find_colon addr)

abbrev pub is_bad_length : Bytes → Bool
is_bad_length addr = length addr == 0 || leb sockaddr_size (length addr)

-- `none` is a null pointer; `out` is not null.
unfoldable pub parse_addr : Option Bytes → ParsedAddr
unfolding parse_proto parse_host
parse_addr none = failed
parse_addr (some addr) =
    if is_bad_length addr then failed else parse_host (parse_proto addr).0 (parse_proto addr).1
