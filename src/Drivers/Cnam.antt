-- ===== src/Drivers/Cnam.antt =====
-- src/drivers/CnamHttpDriver.cpp: the template of the URL, the request and the reply.
pub mod Template
pub mod Filling
use yeti_lnp_resolver.Base.{
  ℕ, Bool, true, false, Option, none, some, List, [], ◌∷◌, ◌++◌, Bytes, codes, ◌==◌, if◌then◌else◌,
  length, ◌⊎◌, inl, inr, ℤ, pos, c_str,
}
use yeti_lnp_resolver.Base.Decimal.{to_string, int_to_string}
use yeti_lnp_resolver.Types.{
  ResolverRequest, SResult, HttpRequest, auth_none, Exception, driver_error,
}
use yeti_lnp_resolver.Resolver.State.{Action, fetch, raise, Driver}
use yeti_lnp_resolver.Drivers.Json.{
  JsonLibrary, JsonType, json_invalid, json_false, json_true, json_null, json_number, json_string,
  json_array, json_object, is_object,
}
use yeti_lnp_resolver.Drivers.Http.{json_header}

-- `UriPart` with its two types.
pub data UriPart : Type 0 where
  string_part placeholder_part : Bytes → UriPart

-- `ST_NORMAL` and `ST_PLACEHOLDER`.
pub data TemplateState : Type 0 where
  normal placeholder : TemplateState

-- The loop's variables: the state, the bytes of the URL from `pos` to `i`, and `uri_parts`; or the
-- text of the exception.
pub data Scan : Type 0 where
  scanning : TemplateState → Bytes → List UriPart → Scan
  failed : Bytes → Scan

-- `if(i > pos) uri_parts.emplace_back(UriPart::URI_PART_STRING, ...)`
abbrev pub save_string : Bytes → List UriPart → List UriPart
save_string [] parts = parts
save_string (c ∷ s) parts = parts ++ (string_part (c ∷ s) ∷ [])

abbrev pub close_placeholder : Bytes → List UriPart → Scan
close_placeholder [] parts = failed (codes "empty placeholder in the url template")
close_placeholder (c ∷ s) parts = scanning normal [] (parts ++ (placeholder_part (c ∷ s) ∷ []))

-- One round of the loop, for the character `c`.
unfoldable pub scan_char : Scan → ℕ → Scan
scan_char (failed what) c = failed what
scan_char (scanning normal part parts) c =
    if c == b'{'
    then scanning placeholder [] (save_string part parts)
    else if c == b'}'
    then failed (codes "unexpected '}' in the url template")
    else scanning normal (part ++ (c ∷ [])) parts
scan_char (scanning placeholder part parts) c =
    if c == b'}'
    then close_placeholder part parts
    else if c == b'{'
    then failed (codes "unexpected '{' in the url template")
    else scanning placeholder (part ++ (c ∷ [])) parts

unfoldable pub scan_url : Scan → Bytes → Scan
unfolding scan_char
scan_url s [] = s
scan_url s (c ∷ url) = scan_url (scan_char s c) url

-- What follows the loop: the exception's text, or the parts.
abbrev pub finish_scan : Scan → Bytes ⊎ List UriPart
finish_scan (failed what) = inl what
finish_scan (scanning placeholder part parts) =
    inl (codes "unclosed placeholder in the url template")
finish_scan (scanning normal part parts) = inr (save_string part parts)

unfoldable pub parse_url_template : Bytes → Bytes ⊎ List UriPart
unfolding scan_url
parse_url_template url = finish_scan (scan_url (scanning normal [] []) url)

-- The numbers of cJSON.h.
abbrev pub type_number : JsonType → ℕ
type_number json_invalid = 0
type_number json_false = 1
type_number json_true = 2
type_number json_null = 4
type_number json_number = 8
type_number json_string = 16
type_number json_array = 32
type_number json_object = 64

abbrev pub prepend_text : Bytes → Exception ⊎ Bytes → Exception ⊎ Bytes
prepend_text text (inl e) = inl e
prepend_text text (inr rest) = inr (text ++ rest)

pub record CnamCfg : Type 0 where
  pub uniq_id : ℤ
  pub timeout : ℕ
  pub uri_parts : List UriPart

module _ (j : JsonLibrary) where
  open j use {
    Node, parse_json, type_of, valuestring, valueint, get_object_item, create_object,
    add_item_reference, print_unformatted,
  }

  -- The switch on `item->type`.
  unfoldable pub item_text : Node → Bytes → JsonType → Exception ⊎ Bytes
  item_text n key json_string = inr (c_str (valuestring n))
  item_text n key json_number = inr (int_to_string (valueint n))
  item_text n key json_true = inr (codes "1")
  item_text n key json_false = inr (codes "0")
  item_text n key t = inl (
      driver_error (
        codes "unsupported hash item type "
        ++ (to_string (type_number t) ++ (codes " by key '" ++ (c_str key ++ codes "'")))))

  unfoldable pub found_text : Bytes → Option Node → Exception ⊎ Bytes
  unfolding item_text
  found_text key none =
      inl (driver_error (codes "missed required key '" ++ (c_str key ++ codes "' in request")))
  found_text key (some i) = item_text i key (type_of i)

  unfoldable pub part_text : Node → UriPart → Exception ⊎ Bytes
  unfolding found_text
  part_text n (string_part s) = inr s
  part_text n (placeholder_part key) = found_text key (get_object_item n (c_str key))

  abbrev pub append_text : Exception ⊎ Bytes → Exception ⊎ Bytes → Exception ⊎ Bytes
  append_text (inl e) rest = inl e
  append_text (inr text) rest = prepend_text text rest

  -- The loop over the parts.
  unfoldable pub get_url : Node → List UriPart → Exception ⊎ Bytes
  unfolding part_text
  get_url n [] = inr []
  get_url n (p ∷ parts) = append_text (part_text n p) (get_url n parts)

  unfoldable pub cnam_request : CnamCfg → ResolverRequest → Exception ⊎ Bytes → Action
  cnam_request c r (inl e) = raise e
  cnam_request c r (inr url) = fetch (record {
    id = r.id;
    url = some (c_str url);
    auth_type = auth_none;
    login = none;
    pass = none;
    verify_ssl = false;
    timeout_ms = c.timeout;
    headers = json_header ∷ [];
  })

  unfoldable pub resolve_json : CnamCfg → ResolverRequest → Option Node → Action
  unfolding get_url cnam_request
  resolve_json c r none = raise (driver_error (codes "failed to parse request json"))
  resolve_json c r (some n) =
      if is_object (type_of n)
      then cnam_request c r (get_url n c.uri_parts)
      else raise (driver_error (codes "expected JSON object in request"))

  -- `CCnamHttpDriver::resolve`
  unfoldable pub resolve : CnamCfg → ResolverRequest → Action
  unfolding resolve_json
  resolve c r = resolve_json c r (parse_json (c_str r.number))

  unfoldable pub wrap_reply : ResolverRequest → Option Node → Exception ⊎ SResult
  wrap_reply r none = inl (driver_error (codes "failed to parse reply JSON"))
  wrap_reply r (some n) =
      if is_object (type_of n)
      then inr (record r.result {
        raw_data = print_unformatted (add_item_reference create_object (codes "response") n);
      })
      else inl (driver_error (codes "expected JSON object in reply"))

  -- `CCnamHttpDriver::parse`
  unfoldable pub parse : Bytes → ResolverRequest → Exception ⊎ SResult
  unfolding wrap_reply
  parse body r = wrap_reply r (parse_json (c_str body))

  unfoldable pub cnam_driver : CnamCfg → Driver
  unfolding resolve parse
  cnam_driver c = record {
    unique_id = c.uniq_id;
    name = codes "CNAM HTTP";
    driver_type = pos 1;
    resolve = resolve c;
    parse = parse;
  }
