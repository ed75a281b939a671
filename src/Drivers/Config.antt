-- ===== src/Drivers/Config.antt =====
-- `CDriverCfg` of src/drivers/DriverConfig.cpp, and the integral and Boolean casts of
-- src/libs/jsonxx.h: what every driver reads of its database row. The row (libpqxx) is a parameter.
pub mod Constructors
pub mod Parameters
pub mod Validity
pub mod Construct
pub mod Ids
use yeti_lnp_resolver.Base.{
  ℕ, ◌+◌, ◌-◌, ◌%◌, ◌^◌, Bool, true, false, Option, none, some, List, [], ◌∷◌, Bytes, codes, ◌==◌,
  if◌then◌else◌, ◌⊎◌, inl, inr, ℤ, pos, negsuc, eq_ℤ, length,
}
use yeti_lnp_resolver.Drivers.Json.{
  JsonLibrary, JsonType, json_true, is_number, jsonxx, item, string_at,
}
use yeti_lnp_resolver.Drivers.Select.{
  Format, invalid, separate_columns_v1, separate_columns_v2, json_format, not_supported,
}

-- An exception: the text of `what()`.
infixl 5 ◌>>=◌
abbrev pub ◌>>=◌ {ℓ κ} : {A : Type ℓ} {B : Type κ} → Bytes ⊎ A → (A → Bytes ⊎ B) → Bytes ⊎ B
inl what >>= f = inl what
inr a >>= f = f a

-- What is read of a row by a column's name: `c_str()`, which is empty for NULL, `as<string>()`, and
-- `as<T>(d)` for integers of 32 bits with a sign, 16 and 32 bits.
pub record ConfigRow : Type 0 where
  pub c_str_of : Bytes → Bytes ⊎ Bytes
  pub string_of : Bytes → Bytes ⊎ Bytes
  pub int32_of : Bytes → ℤ → Bytes ⊎ ℤ
  pub uint16_of : Bytes → ℕ → Bytes ⊎ ℕ
  pub uint32_of : Bytes → ℕ → Bytes ⊎ ℕ

-- The cast of an `int` to an unsigned integer of w bits.
unfoldable pub to_unsigned : ℕ → ℤ → ℕ
to_unsigned w (pos n) = n % 2 ^ w
to_unsigned w (negsuc n) = 2 ^ w - 1 - n % 2 ^ w

abbrev pub default_timeout : ℕ
default_timeout = 4000

-- `getFormatStrType`
unfoldable pub get_format_str_type : Format → Bytes
get_format_str_type separate_columns_v1 = codes "separate column configuration (ver. 1)"
get_format_str_type separate_columns_v2 = codes "separate column configuration (ver. 2)"
get_format_str_type json_format = codes "JSON format configuration"
get_format_str_type _ = codes "unknown configuration"

-- A getter that reads a column in both formats with separate columns, and its default otherwise.
abbrev pub of_columns {ℓ} : {A : Type ℓ} → Format → A → Bytes ⊎ A → Bytes ⊎ A
of_columns separate_columns_v1 d v = v
of_columns separate_columns_v2 d v = v
of_columns _ d v = inr d

abbrev pub of_json {ℓ} : {A : Type ℓ} → Format → A → Bytes ⊎ A → Bytes ⊎ A
of_json json_format d v = v
of_json _ d v = inr d

unfoldable pub get_raw_uniq_id : Format → ConfigRow → Bytes ⊎ ℤ
get_raw_uniq_id json_format row = row.int32_of (codes "id") (negsuc 0)
get_raw_uniq_id f row = of_columns f (negsuc 0) (row.int32_of (codes "o_id") (negsuc 0))

unfoldable pub get_raw_label : Format → ConfigRow → Bytes ⊎ Bytes
get_raw_label json_format row = row.string_of (codes "name")
get_raw_label f row = of_columns f [] (row.string_of (codes "o_name"))

unfoldable pub get_raw_timeout : Format → ConfigRow → Bytes ⊎ ℕ
get_raw_timeout f row =
    of_columns f default_timeout (row.uint32_of (codes "o_timeout") default_timeout)

unfoldable pub get_raw_port : Format → ConfigRow → Bytes ⊎ ℕ
get_raw_port f row = of_columns f 0 (row.uint16_of (codes "o_port") 0)

unfoldable pub get_raw_host : Format → ConfigRow → Bytes ⊎ Bytes
get_raw_host f row = of_columns f [] (row.string_of (codes "o_host"))

unfoldable pub get_raw_user_name : Format → ConfigRow → Bytes ⊎ Bytes
get_raw_user_name f row = of_columns f [] (row.string_of (codes "o_thinq_username"))

module _ (j : JsonLibrary) where
  open j use {Node, type_of, valueint}

  -- `item::operator T` for an integral type of w bits: 0 if the item is not a number.
  unfoldable pub item_unsigned : ℕ → Node → ℕ
  unfolding to_unsigned
  item_unsigned w n = if is_number (type_of n) then to_unsigned w (valueint n) else 0

  -- `item::operator bool`
  abbrev pub is_true : JsonType → Bool
  is_true json_true = true
  is_true _ = false

  unfoldable pub item_bool : Node → Bool
  item_bool n = is_true (type_of n)

  -- `data[key]` and its cast.
  abbrev pub unsigned_at : ℕ → Node → Bytes → Bytes ⊎ ℕ
  unsigned_at w n key = do i ← item j n key; inr (item_unsigned w i)

  unfoldable pub get_json_timeout : Format → Node → Bytes ⊎ ℕ
  unfolding item_unsigned item
  get_json_timeout f n = of_json f default_timeout (unsigned_at 32 n (codes "timeout"))

  unfoldable pub get_json_port : Format → Node → Bytes ⊎ ℕ
  unfolding item_unsigned item
  get_json_port f n = of_json f 0 (unsigned_at 16 n (codes "port"))

  unfoldable pub get_json_host : Format → Node → Bytes ⊎ Bytes
  unfolding string_at
  get_json_host f n = of_json f [] (string_at j n (codes "host"))

  unfoldable pub get_json_user_name : Format → Node → Bytes ⊎ Bytes
  unfolding string_at
  get_json_user_name f n = of_json f [] (string_at j n (codes "username"))

-- The identifier and the label.
pub record DriverCfg : Type 0 where
  pub uniq_id : ℤ
  pub label : Bytes

-- A member that must not be empty.
abbrev pub not_empty : Bytes → Bytes → Bytes ⊎ Bytes
not_empty what [] = inl what
not_empty what (c ∷ cs) = inr (c ∷ cs)

abbrev pub known_id : ℤ → Bytes ⊎ ℤ
known_id id =
    if eq_ℤ id (negsuc 0) then inl (codes "not found driver unique identifier!") else inr id

-- The constructor.
unfoldable pub driver_cfg : Format → ConfigRow → Bytes ⊎ DriverCfg
unfolding get_raw_uniq_id get_raw_label
driver_cfg f row = do
  id ← get_raw_uniq_id f row
  uniq_id ← known_id id
  raw ← get_raw_label f row
  label ← not_empty (codes "not found user defined name for driver!") raw
  inr (record { uniq_id = uniq_id; label = label })
