-- ===== src/Drivers/Select.antt =====
-- src/drivers/DriverDefines.h, `CDriverCfg::getID` of src/drivers/DriverConfig.cpp and
-- `CDriver::instantiate` of src/drivers/Driver.cpp: which driver a database row is for. The row
-- (libpqxx) is a parameter.
pub mod Known
use yeti_lnp_resolver.Base.{
  ℕ, ◌≡◌, Bool, true, false, ◌&&◌, Option, none, some, List, [], ◌∷◌, Bytes, codes, ltb, leb, ◌==◌,
  if◌then◌else◌, length, equal, c_str,
}

-- `ECDriverId`
pub data DriverId : Type 0 where
  null_driver sip http_thinq mhash_csv http_alcazar http_coure_anq cnam_http http_bulkvs : DriverId

-- `SDriverTypeMap_t`
pub record DriverType : Type 0 where
  pub private_id : DriverId
  pub number_id : ℕ
  pub string_id : Bytes

abbrev type_map : DriverId → ℕ → Bytes → DriverType
type_map id number name = record { private_id = id; number_id = number; string_id = name }

-- `sDriverTypeArray`
unfoldable pub driver_types : List DriverType
driver_types =
    type_map sip 1 (codes "Lnp::DatabaseSipRedirect")
    ∷ type_map http_thinq 2 (codes "Lnp::DatabaseThinq")
    ∷ type_map mhash_csv 3 (codes "Lnp::DatabaseCsv")
    ∷ type_map http_alcazar 4 (codes "Lnp::DatabaseAlcazar")
    ∷ type_map http_coure_anq 5 (codes "Lnp::DatabaseCoureAnq")
    ∷ type_map cnam_http 6 (codes "Cnam::DatabaseHttp")
    ∷ type_map http_bulkvs 7 (codes "Lnp::DatabaseBulkvs")
    ∷ []

-- `ECfgFormat_t`, in its order.
pub data Format : Type 0 where
  invalid separate_columns_v1 separate_columns_v2 json_format not_supported : Format

abbrev pub rank : Format → ℕ
rank invalid = 0
rank separate_columns_v1 = 1
rank separate_columns_v2 = 2
rank json_format = 3
rank not_supported = 4

-- What is read of a row: the type of a column, its text (empty for NULL), and `as<uint16_t>(0)` of
-- it. `none` is a `pqxx_exception`.
pub record RawRow : Type 0 where
  pub column_type : Bytes → Option ℕ
  pub text : Bytes → Option Bytes
  pub number : Bytes → Option ℕ

abbrev pub is_set : Option ℕ → Bool
is_set none = false
is_set (some n) = ltb 0 n

-- "Try to detect configuration format type", if it is not known yet.
unfoldable pub detect_format : RawRow → Format → Format
detect_format row invalid =
    if is_set (row.column_type (codes "parameters"))
    then json_format
    else if is_set (row.column_type (codes "o_alkazar_key"))
    then separate_columns_v2
    else if is_set (row.column_type (codes "o_thinq_token"))
    then separate_columns_v1
    else invalid
detect_format row format = format

-- The driver, an exception, or the entry past the end of the array, which is read all the same.
pub data Selected : Type 0 where
  selected : DriverId → Selected
  thrown past_the_end : Selected

-- `std::find_if`, then `drv->privateId`.
unfoldable pub find_by : (DriverType → Bool) → List DriverType → Selected
find_by test [] = past_the_end
find_by test (t ∷ ts) = if test t then selected t.private_id else find_by test ts

unfoldable pub select_by_name : Bytes → Selected
unfolding find_by driver_types
select_by_name name =
    if length name == 0
    then selected null_driver
    else find_by (λ t. equal name t.string_id) driver_types

unfoldable pub select_by_number : Option ℕ → Selected
unfolding find_by driver_types
select_by_number none = thrown
select_by_number (some n) =
    if ltb 0 n then find_by (λ t. n == t.number_id) driver_types else selected null_driver

abbrev pub select_by : RawRow → Option Bytes → Selected
select_by row (some name) = select_by_name (c_str name)
select_by row none = select_by_number (row.number (codes "o_driver_id"))

-- Alcazar is not taken from a row in the initial format.
abbrev pub check_format : Format → Selected → Selected
check_format format (selected http_alcazar) =
    if leb (rank format) 1 then selected null_driver else selected http_alcazar
check_format format s = s

-- `getID`, with `sConfigType` before and after.
unfoldable pub get_id : RawRow → Format → Format × Selected
unfolding detect_format select_by_name select_by_number
get_id row format =
    let detected = detect_format row format in
    (detected, check_format detected (select_by row (row.text (codes "database_type"))))

-- `instantiate`: the constructor of the driver that was selected, if any. `construct` gives `none`
-- where a constructor throws.
pub data Instantiated {ℓ} (A : Type ℓ) : Type ℓ where
  constructed : A → Instantiated A
  no_driver : Instantiated A
  failed undefined : Instantiated A

abbrev pub construct_or_fail {ℓ} : {A : Type ℓ} → Option A → Instantiated A
construct_or_fail none = failed
construct_or_fail (some d) = constructed d

unfoldable pub instantiate_selected {ℓ} :
    {A : Type ℓ} → (DriverId → Option A) → Selected → Instantiated A
instantiate_selected construct thrown = failed
instantiate_selected construct past_the_end = undefined
instantiate_selected construct (selected null_driver) = no_driver
instantiate_selected construct (selected id) = construct_or_fail (construct id)

unfoldable pub instantiate {ℓ} :
    {A : Type ℓ} → (DriverId → Option A) → RawRow → Format → Format × Instantiated A
unfolding get_id instantiate_selected
instantiate construct row format =
    let (detected, id) = get_id row format in (detected, instantiate_selected construct id)
