-- ===== src/Drivers/Csv/Laws.antt =====
-- Well-formed CSV files, and what the driver makes of them.
use yeti_lnp_resolver.Base.{
  ℕ, ◌+◌, ◌≡◌, ◌≢◌, refl, ap, ◌∙◌, Bool, true, false, Option, none, some, List, [], ◌∷◌, ◌++◌,
  Bytes, arith, ◌==◌, if◌then◌else◌, length, Lacks, equal, equal_iff, All, c_str-Lacks, inl, inr,
  Bool-cases, map, or_else, length-append, Lacks-append,
}
use yeti_lnp_resolver.Base.Assoc.{lookup, emplace, lookup-emplace}
use yeti_lnp_resolver.Base.Streams.{
  getline, split, split-append, split-nil, cut_at-append, cut_at-Lacks,
}
use yeti_lnp_resolver.Types.{ResolverRequest, SResult}
use yeti_lnp_resolver.Resolver.State.{finish}
use yeti_lnp_resolver.Drivers.Csv.{
  Row, Hash, ok, read_fields, validity, load_line, load_lines, load_driver, resolve, row_result,
}

-- An entry of the file: a number, its routing tag and its routing number.
pub record Entry : Type 0 where
  pub number : Bytes
  pub tag : Bytes
  pub routing_number : Bytes

-- The three fields are not empty, and hold neither a comma nor a newline; the number no NUL.
abbrev pub IsField : Bytes → Type 0
IsField f = (f ≢ []) × Lacks b',' f × Lacks b'\n' f

pub record IsEntry (e : Entry) : Type 0 where
  pub number_field : IsField e.number
  pub tag_field : IsField e.tag
  pub routing_number_field : IsField e.routing_number
  pub c_string : Lacks 0 e.number

abbrev pub line_of : Entry → Bytes
line_of e = e.number ++ (b',' ∷ (e.tag ++ (b',' ∷ e.routing_number)))

-- The file: a line for each entry.
abbrev pub file_of : List Entry → Bytes
file_of [] = []
file_of (e ∷ es) = line_of e ++ (b'\n' ∷ file_of es)

-- The first entry for a number.
abbrev pub first_entry : Bytes → List Entry → Option Entry
first_entry n [] = none
first_entry n (e ∷ es) = if equal e.number n then some e else first_entry n es

abbrev fields_of : Entry → List Bytes
fields_of e = e.number ∷ e.tag ∷ e.routing_number ∷ []

getline-append : (d : ℕ) (t rest : Bytes) → Lacks d t → getline d (t ++ (d ∷ rest)) ≡ some (t, rest)
unfolding getline
getline-append d [] rest h = ap some (cut_at-append d [] rest h)
getline-append d (c ∷ cs) rest h = ap some (cut_at-append d (c ∷ cs) rest h)

getline-Lacks : (d : ℕ) (t : Bytes) → Lacks d t → t ≢ [] → getline d t ≡ some (t, [])
unfolding getline
getline-Lacks d [] h ne = absurd (ne refl)
getline-Lacks d (c ∷ cs) h ne = ap some (cut_at-Lacks d (c ∷ cs) h)

read_fields-line_of :
    (line : ℕ) (e : Entry) → IsEntry e → read_fields line 0 3 (line_of e) ≡ ok (fields_of e)
unfolding read_fields
read_fields-line_of line e v =
    rw
      (
        getline-append b',' e.number (e.tag ++ (b',' ∷ e.routing_number)) v.number_field.1,
        getline-append b',' e.tag e.routing_number v.tag_field.1,
        getline-Lacks b',' e.routing_number v.routing_number_field.1 v.routing_number_field.0,
      )
      refl

length-ne-nil : (s : Bytes) → s ≢ [] → (length s == 0) ≡ false
length-ne-nil [] ne = absurd (ne refl)
length-ne-nil (c ∷ cs) ne = ground arith

validity-fields_of : (e : Entry) → IsEntry e → validity (fields_of e) ≡ 3
unfolding validity
validity-fields_of e v =
    rw
      (
        length-ne-nil e.number v.number_field.0,
        length-ne-nil e.tag v.tag_field.0,
        length-ne-nil e.routing_number v.routing_number_field.0,
      )
      refl

abbrev row_of : ℕ → Entry → Row
row_of line e = record { id = line; field = fields_of e }

load_line-line_of :
    (line : ℕ) (e : Entry) (hash : Hash)
    → IsEntry e
    → load_line 0 3 line (line_of e) hash ≡ ok (emplace equal e.number (row_of line e) hash)
load_line-line_of line e hash v =
    unfold load_line in rw (read_fields-line_of line e v, validity-fields_of e v) refl

-- The table after the entries, which stand from line `line + 1` on.
abbrev table : ℕ → List Entry → Hash → Hash
table line [] hash = hash
table line (e ∷ es) hash = table (line + 1) es (emplace equal e.number (row_of (line + 1) e) hash)

line_of-ne-nil : (e : Entry) → IsEntry e → (length (line_of e) == 0) ≡ false
line_of-ne-nil e v =
    ground (arith, length-append e.number (b',' ∷ (e.tag ++ (b',' ∷ e.routing_number))))

load_lines-lines :
    (line : ℕ) (es : List Entry) (hash : Hash)
    → All IsEntry es
    → load_lines 0 3 line (map line_of es) hash ≡ ok (table line es hash)
unfolding load_lines
load_lines-lines line [] hash v = refl
load_lines-lines line (e ∷ es) hash v =
    rw (line_of-ne-nil e v.0, load_line-line_of (line + 1) e hash v.0)
      (load_lines-lines (line + 1) es _ v.1)

line_of-Lacks : (e : Entry) → IsEntry e → Lacks b'\n' (line_of e)
line_of-Lacks e v =
    Lacks-append b'\n' e.number _ v.number_field.2
      (refl, Lacks-append b'\n' e.tag _ v.tag_field.2 (refl, v.routing_number_field.2))

split-file_of : (es : List Entry) → All IsEntry es → split b'\n' (file_of es) ≡ map line_of es
split-file_of [] v = split-nil b'\n'
split-file_of (e ∷ es) v =
    split-append b'\n' (line_of e) (file_of es) (line_of-Lacks e v.0)
    ∙ ap (◌∷◌ (line_of e)) (split-file_of es v.1)

load_driver-file_of :
    (es : List Entry) → All IsEntry es → load_driver (some (some (file_of es))) ≡ ok (table 0 es [])
unfolding load_driver
load_driver-file_of es v = rw (split-file_of es v) (load_lines-lines 0 es [] v)

abbrev first_row : ℕ → Bytes → List Entry → Option Row
first_row line n [] = none
first_row line n (e ∷ es) =
    if equal e.number n then some (row_of (line + 1) e) else first_row (line + 1) n es

or_else_assoc : (a b c : Option Row) → or_else (or_else a b) c ≡ or_else a (or_else b c)
or_else_assoc none b c = refl
or_else_assoc (some x) b c = refl

lookup-table :
    (line : ℕ) (n : Bytes) (es : List Entry) (hash : Hash)
    → lookup equal n (table line es hash) ≡ or_else (lookup equal n hash) (first_row line n es)
lookup-table line n [] hash = ground arith
lookup-table line n (e ∷ es) hash =
    lookup-table (line + 1) n es _
    ∙ ap (λ o. or_else o (first_row (line + 1) n es))
        (lookup-emplace equal equal_iff e.number n (row_of (line + 1) e) hash)
    ∙ or_else_assoc (lookup equal n hash) _ _
    ∙ ap (or_else (lookup equal n hash)) (first (equal e.number n))
  where
    first :
        (b : Bool)
        → or_else (if b then some (row_of (line + 1) e) else none) (first_row (line + 1) n es)
          ≡ (if b then some (row_of (line + 1) e) else first_row (line + 1) n es)
    first true = refl
    first false = refl

-- What the driver answers for a number, by the first entry for it: the entry's routing number and
-- tag, or the number itself.
abbrev pub entry_result : ResolverRequest → Option Entry → SResult
entry_result r none = record r.result { local_routing_number = r.number }
entry_result r (some e) = record r.result {
  local_routing_number = e.routing_number;
  local_routing_tag = e.tag;
}

row_result-first_row :
    (line : ℕ) (r : ResolverRequest) (es : List Entry)
    → row_result r (first_row line r.number es) ≡ entry_result r (first_entry r.number es)
row_result-first_row line r [] = refl
row_result-first_row line r (e ∷ es) = elim (Bool-cases (equal e.number r.number)) [
  | inl hit ↦ rw hit refl
  | inr miss ↦ rw miss (row_result-first_row (line + 1) r es)
]

-- A file of entries whose fields are not empty and hold no comma, newline or NUL loads, and the
-- driver then resolves every number without a NUL by the first entry for it, or to itself if there
-- is none.
pub resolve-file_of :
    (es : List Entry) (r : ResolverRequest)
    → All IsEntry es
    → Lacks 0 r.number
    → (hash : Hash) × (load_driver (some (some (file_of es))) ≡ ok hash)
      × (resolve hash r ≡ finish (entry_result r (first_entry r.number es)))
unfolding resolve
resolve-file_of es r v lacks = (
  table 0 es [],
  load_driver-file_of es v,
  rw (c_str-Lacks r.number lacks, lookup-table 0 r.number es [])
      (unfold lookup in ap finish (row_result-first_row 0 r es)),
)
