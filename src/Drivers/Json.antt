-- ===== src/Drivers/Json.antt =====
-- src/drivers/JsonHelpers.h, JsonHelpers.cpp and src/libs/jsonxx.h, jsonxx.cpp: values out of a
-- cJSON tree. The cJSON library itself is a parameter.
pub mod Laws
use yeti_lnp_resolver.Base.{
  ℕ, Bool, true, false, ◌&&◌, ◌||◌, Option, none, some, List, [], ◌∷◌, ◌++◌, Bytes, codes, ◌==◌,
  if◌then◌else◌, ◌⊎◌, inl, inr, ℤ, pos, negsuc, c_str,
}

-- The type of an item, without the flags of references.
pub data JsonType : Type 0 where
  json_invalid json_false json_true json_null json_number json_string json_array json_object :
      JsonType

-- What the program calls of cJSON: `cJSON_Parse` on a C string, the members of an item (`child` is
-- the chain of its items with their names), `cJSON_GetObjectItem`, and the building and printing of
-- an object. `out_of_range_what` is the text of the C++ library's `std::out_of_range`.
pub record JsonLibrary : Type 1 where
  pub Node : Type 0
  pub parse_json : Bytes → Option Node
  pub type_of : Node → JsonType
  pub child : Node → List (Bytes × Node)
  pub valuestring : Node → Bytes
  pub valueint : Node → ℤ
  pub get_object_item : Node → Bytes → Option Node
  pub create_object : Node
  pub add_item_reference : Node → Bytes → Node → Node
  pub print_unformatted : Node → Bytes
  pub out_of_range_what : Bytes

-- `s.compare(s.size() - 1, 1, "\"") == 0` and the erasure: on an empty string the position is out
-- of range, and `compare` throws.
unfoldable pub strip_last : Bytes → Option Bytes
strip_last [] = none
strip_last (c ∷ []) = if c == b'"' then some [] else some (c ∷ [])
strip_last (c ∷ d ∷ s) = elim (strip_last (d ∷ s)) [ none ↦ none | some t ↦ some (c ∷ t) ]

abbrev pub strip_first : Bytes → Bytes
strip_first [] = []
strip_first (c ∷ s) = if c == b'"' then s else c ∷ s

-- The removal of a first and a last quote; `none` is `std::out_of_range`.
unfoldable pub strip_quotes : Bytes → Option Bytes
unfolding strip_last
strip_quotes s = strip_last (strip_first s)

abbrev pub is_object : JsonType → Bool
is_object json_object = true
is_object _ = false

abbrev pub is_string : JsonType → Bool
is_string json_string = true
is_string _ = false

abbrev pub is_number : JsonType → Bool
is_number json_number = true
is_number _ = false

abbrev pub or_what {ℓ} : {A : Type ℓ} → Bytes → Option A → Bytes ⊎ A
or_what what none = inl what
or_what what (some s) = inr s

abbrev pub found_or_what {ℓ} : {A : Type ℓ} → Bytes → Option A → Bytes ⊎ A
found_or_what key none = inl (codes "jsonxx: not found parsing item - " ++ key)
found_or_what key (some i) = inr i

-- The left side is the text of an exception.
infixl 5 ◌>>=◌
abbrev pub ◌>>=◌ {ℓ κ} : {A : Type ℓ} {B : Type κ} → Bytes ⊎ A → (A → Bytes ⊎ B) → Bytes ⊎ B
inl what >>= f = inl what
inr a >>= f = f a

module _ (j : JsonLibrary) where
  open j use {
    Node, parse_json, type_of, child, valuestring, valueint, get_object_item, out_of_range_what,
  }

  -- `getJsonValue<string>`; `none` is an exception other than the program's own.
  unfoldable pub get_json_string : Node → Option Bytes
  unfolding strip_quotes
  get_json_string n = if is_string (type_of n) then strip_quotes (valuestring n) else none

  -- `getJsonValue<int>`
  unfoldable pub get_json_int : Node → Option ℤ
  get_json_int n = if is_number (type_of n) then some (valueint n) else none

  -- `getJsonValueByKey`: the item, if the node is an object and has it.
  unfoldable pub get_by_key : Node → Bytes → Option Node
  get_by_key n key = if is_object (type_of n) then get_object_item n key else none

  -- `jsonxx(data)`: an exception with its text, or the tree.
  unfoldable pub jsonxx : Bytes → Bytes ⊎ Node
  jsonxx text = or_what (codes "jsonxx: data parsing error") (parse_json (c_str text))

  -- `operator[]`
  unfoldable pub item : Node → Bytes → Bytes ⊎ Node
  item n key =
      if is_object (type_of n)
      then found_or_what key (get_object_item n key)
      else inl (codes "jsonxx: item parsing internal error")

  -- The cast to `string`: empty for another type.
  unfoldable pub item_string : Node → Bytes ⊎ Bytes
  unfolding strip_quotes
  item_string n =
      if is_string (type_of n)
      then or_what out_of_range_what (strip_quotes (valuestring n))
      else inr []

  -- `static_cast<string>(json[key])`
  unfoldable pub string_at : Node → Bytes → Bytes ⊎ Bytes
  unfolding item item_string
  string_at n key = do i ← item n key; item_string i
