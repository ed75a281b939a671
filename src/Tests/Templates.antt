-- ===== src/Tests/Templates.antt =====
-- A URL template with one placeholder, and rows of the database.
use yeti_lnp_resolver.Base.{◌≡◌, refl, inr, some, List, [], ◌∷◌, Bytes, codes, pos, map}
use yeti_lnp_resolver.Base.ByteStrings.{c_str}
use yeti_lnp_resolver.Drivers.Json.{JsonLibrary, json_string}
use yeti_lnp_resolver.Drivers.Cnam.{UriPart, parse_url_template, get_url}
use yeti_lnp_resolver.Drivers.Cnam.Template.{template_of}
use yeti_lnp_resolver.Drivers.Cnam.Filling.{Segment, unfilled, HasString, get_url-filled}
use yeti_lnp_resolver.Drivers.Select.{RawRow}

abbrev segment : Segment
segment = record { text = codes "h/"; key = codes "n"; value = codes "12" }

-- A JSON library whose every item is the string "12".
abbrev twelve : JsonLibrary
twelve = record {
  Node = Unit {0};
  parse_json = λ s. some tt;
  type_of = λ n. json_string;
  child = λ n. [];
  valuestring = λ n. codes "12";
  valueint = λ n. pos 12;
  get_object_item = λ n key. some tt;
  create_object = tt;
  add_item_reference = λ o key n. tt;
  print_unformatted = λ n. codes "12";
  out_of_range_what = [];
}

has_twelve : HasString twelve tt segment
unfolding c_str
has_twelve = (tt, refl, refl, refl)

get_url-filled_example :
    (parts : List UriPart) × (parse_url_template
        (template_of (map unfilled (segment ∷ [])) (codes "/"))
      ≡ inr parts)
    × (get_url twelve tt parts ≡ inr (codes "h/12/"))
get_url-filled_example =
    get_url-filled twelve tt (segment ∷ []) (codes "/")
      ((((refl, (refl, tt)), (refl, (refl, tt))), (λ e. cc), ((refl, tt), (refl, tt))), tt)
      ((refl, tt), (refl, tt)) (has_twelve, tt)

-- A row with one text in every column, and the number 3.
abbrev row_of : Bytes → RawRow
row_of name = record {
  column_type = λ column. some 25;
  text = λ column. some name;
  number = λ column. some 3;
}
