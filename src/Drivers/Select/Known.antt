-- ===== src/Drivers/Select/Known.antt =====
-- Which rows make which driver.
use yeti_lnp_resolver.Base.{
  ◌≡◌, ◌≢◌, refl, ◌⊎◌, inl, inr, false, none, some, List, [], ◌∷◌, Bytes, codes, equal, equal_iff,
  Bool-cases, All, length, arith, ◌==◌,
}
use yeti_lnp_resolver.Base.ByteStrings.{c_str}
use yeti_lnp_resolver.Drivers.Select.{
  DriverType, driver_types, RawRow, Format, json_format, selected, check_format, past_the_end,
  find_by, select_by_name, select_by_number, get_id, detect_format,
}

-- No entry of the array has the name.
abbrev pub IsUnknown : Bytes → Type 0
IsUnknown name = All (λ t. name ≢ t.string_id) driver_types

find_by-unknown :
    (name : Bytes) (ts : List DriverType)
    → All (λ t. name ≢ t.string_id) ts
    → find_by (λ t. equal name t.string_id) ts ≡ past_the_end
unfolding find_by
find_by-unknown name [] h = refl
find_by-unknown name (t ∷ ts) h = elim (Bool-cases (equal name t.string_id)) [
  | inl same ↦ absurd (h.0 ((equal_iff name t.string_id).0 same))
  | inr differ ↦ rw differ (find_by-unknown name ts h.1)
]

-- A type name that is not empty and that no entry of the array has makes `getID` read past the
-- array's end.
get_id-IsUnknown :
    (row : RawRow) (format : Format) (name : Bytes)
    → row.text (codes "database_type") ≡ some name
    → c_str name ≢ []
    → IsUnknown (c_str name)
    → (get_id row format).1 ≡ past_the_end
unfolding get_id select_by_name
get_id-IsUnknown row format name e ne h =
    rw (e, length_some (c_str name) ne, find_by-unknown (c_str name) driver_types h) refl
  where
    length_some : (s : Bytes) → s ≢ [] → (length s == 0) ≡ false
    length_some [] k = absurd (k refl)
    length_some (c ∷ s) k = ground arith

-- The row names the driver's type by its text, or, where it has no such column, by its number.
abbrev pub Names : RawRow → DriverType → Type 0
Names row t =
    (row.text (codes "database_type") ≡ some t.string_id)
    ⊎ ((row.text (codes "database_type") ≡ none)
        × (row.number (codes "o_driver_id") ≡ some t.number_id))

abbrev pub SelectedBy : RawRow → DriverType → Type 0
SelectedBy row t = Names row t → (get_id row json_format).1 ≡ selected t.private_id

Names-SelectedBy :
    (row : RawRow) (t : DriverType)
    → check_format json_format (select_by_name (c_str t.string_id)) ≡ selected t.private_id
    → check_format json_format (select_by_number (some t.number_id)) ≡ selected t.private_id
    → SelectedBy row t
unfolding get_id detect_format
Names-SelectedBy row t by_name by_number (inl e) = rw e by_name
Names-SelectedBy row t by_name by_number (inr e) = rw (e.0, e.1) by_number

-- With the JSON format, a row that names any entry of the array of types, by its text or by its
-- number, selects the driver of that entry.
get_id-driver_types : (row : RawRow) → All (SelectedBy row) driver_types
unfolding driver_types select_by_name select_by_number find_by c_str
get_id-driver_types row =
    let select = Names-SelectedBy row in
    (
      select _ refl refl,
      (
        select _ refl refl,
        (
          select _ refl refl,
          (
            select _ refl refl,
            (select _ refl refl, (select _ refl refl, (select _ refl refl, tt))),
          ),
        ),
      ),
    )
