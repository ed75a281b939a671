-- ===== src/Drivers/Csv.antt =====
-- src/drivers/modules/CsvClient.cpp and src/drivers/MhashCsvDriver.cpp: a CSV file in a hash table,
-- and the driver that looks numbers up in it. `fields_number` is at least 1 and `primary_idx` below
-- it, as the driver passes them.
pub mod Laws
use yeti_lnp_resolver.Base.{
  ℕ, zero, suc, ◌+◌, ◌-◌, Bool, true, false, Option, none, some, List, [], ◌∷◌, ◌++◌, Bytes, codes,
  ltb, ◌==◌, if◌then◌else◌, length, get_or, equal, ◌⊎◌, inl, inr, ℤ, pos, c_str,
}
use yeti_lnp_resolver.Base.Assoc.{lookup, emplace}
use yeti_lnp_resolver.Base.Streams.{getline, split}
use yeti_lnp_resolver.Types.{ResolverRequest, SResult, Exception}
use yeti_lnp_resolver.Resolver.State.{Action, finish, Driver}

-- `SRow`
pub record Row : Type 0 where
  pub id : ℕ
  pub field : List Bytes

abbrev pub Hash : Type 0
Hash = List (Bytes × Row)

-- What `loadCsvFile` throws, with the line.
pub data CsvError : Type 0 where
  no_path no_fields not_open : CsvError
  unexpected_format : ℕ → ℕ → CsvError
  too_few_valid : ℕ → CsvError

pub data Loaded {ℓ} (A : Type ℓ) : Type ℓ where
  ok : A → Loaded A
  err : CsvError → Loaded A

infixl 5 ◌>>=◌
abbrev pub ◌>>=◌ {ℓ κ} : {A : Type ℓ} {B : Type κ} → Loaded A → (A → Loaded B) → Loaded B
ok a >>= f = f a
err e >>= f = err e

-- The loop over the fields of a line: `n` fields are still to be read, from `idx` on.
abbrev pub field_or_fail : ℕ → ℕ → Option (Bytes × Bytes) → Loaded (Bytes × Bytes)
field_or_fail line idx none = err (unexpected_format (idx + 1) line)
field_or_fail line idx (some p) = ok p

unfoldable pub read_fields : ℕ → ℕ → ℕ → Bytes → Loaded (List Bytes)
read_fields line idx zero stream = ok []
read_fields line idx (suc n) stream = do
  (field, rest) ← field_or_fail line idx (getline b',' stream)
  fields ← read_fields line (idx + 1) n rest
  ok (field ∷ fields)

-- `validityCnt`
unfoldable pub validity : List Bytes → ℕ
validity [] = 0
validity (f ∷ fs) = (if length f == 0 then 0 else 1) + validity fs

abbrev pub add_row : ℕ → ℕ → Hash → List Bytes → Hash
add_row primary_idx line hash fields =
    emplace equal (get_or fields primary_idx []) (record { id = line; field = fields }) hash

-- A line that is not empty.
unfoldable pub load_line : ℕ → ℕ → ℕ → Bytes → Hash → Loaded Hash
unfolding read_fields validity
load_line primary_idx fields_number line text hash = do
  fields ← read_fields line 0 fields_number text
  if ltb (validity fields) (fields_number - 1)
      then err (too_few_valid line)
      else ok (add_row primary_idx line hash fields)

-- The loop over the lines; `line` is `lineCnt` before the round.
unfoldable pub load_lines : ℕ → ℕ → ℕ → List Bytes → Hash → Loaded Hash
load_lines primary_idx fields_number line [] hash = ok hash
load_lines primary_idx fields_number line (text ∷ more) hash = do
  hash' ←
      (if length text == 0
        then ok hash
        else load_line primary_idx fields_number (line + 1) text hash)
  load_lines primary_idx fields_number (line + 1) more hash'

-- `loadCsvFile`: no path, no fields, or a file that may not open.
unfoldable pub load_csv_file : Option (Option Bytes) → ℕ → ℕ → Loaded Hash
unfolding load_lines
load_csv_file none primary_idx fields_number = err no_path
load_csv_file (some file) primary_idx fields_number =
    if fields_number == 0 then err no_fields else elim file [
      | none ↦ err not_open
      | some content ↦ load_lines primary_idx fields_number 0 (split b'\n' content) []
    ]

-- `CCsvClient::perform`
unfoldable pub perform : Hash → Bytes → Option Row
perform hash number = lookup equal (c_str number) hash

-- `ECCsvFields_t`
abbrev pub field_number : ℕ
field_number = 0

abbrev pub field_routing_tag : ℕ
field_routing_tag = 1

abbrev pub field_routing_number : ℕ
field_routing_number = 2

abbrev pub field_max_value : ℕ
field_max_value = 3

-- The hash table that the constructor of `CMhashCsvDriver` builds.
unfoldable pub load_driver : Option (Option Bytes) → Loaded Hash
unfolding load_csv_file
load_driver file = load_csv_file file field_number field_max_value

abbrev pub row_result : ResolverRequest → Option Row → SResult
row_result r none = record r.result { local_routing_number = r.number }
row_result r (some row) = record r.result {
  local_routing_number = get_or row.field field_routing_number [];
  local_routing_tag = get_or row.field field_routing_tag [];
}

-- `CMhashCsvDriver::resolve` and `parse`, which does nothing.
unfoldable pub resolve : Hash → ResolverRequest → Action
unfolding perform
resolve hash r = finish (row_result r (perform hash r.number))

unfoldable pub parse : Bytes → ResolverRequest → Exception ⊎ SResult
parse body r = inr r.result

unfoldable pub csv_driver : ℤ → Hash → Driver
unfolding resolve parse
csv_driver id hash = record {
  unique_id = id;
  name = codes "MHASH/CSV";
  driver_type = pos 0;
  resolve = resolve hash;
  parse = parse;
}
