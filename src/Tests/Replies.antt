-- ===== src/Tests/Replies.antt =====
-- JSON replies and requests, over a small tree of items.
use yeti_lnp_resolver.Base.{
  All, ◌≡◌, ◌≢◌, ◌⊎◌, refl, inl, inr, false, Option, some, List, [], ◌∷◌, Bytes, codes, ℤ, pos,
  equal,
}
use yeti_lnp_resolver.Base.ByteStrings.{c_str}
use yeti_lnp_resolver.Base.Assoc.{lookup, emplace}
use yeti_lnp_resolver.Base.Decimal.{to_string}
use yeti_lnp_resolver.Types.{ResolverRequest, empty_result, driver_error}
use yeti_lnp_resolver.Drivers.Json.{
  JsonLibrary, JsonType, json_number, json_string, json_array, json_object,
}
use yeti_lnp_resolver.Drivers.Json.Laws.{HasText}
use yeti_lnp_resolver.Drivers.Http.Laws.{IsObject, IsPlain}
use yeti_lnp_resolver.Drivers.CoureAnq as CoureAnq
use yeti_lnp_resolver.Base.{equal}
use yeti_lnp_resolver.Base.Counting.{count}
use yeti_lnp_resolver.Drivers.CoureAnq.Laws.{
  default_key, value_at, IsNumber, parse_operators-value_at,
}
use yeti_lnp_resolver.Drivers.CoureAnq.Ported.{IsReply, parse-IsReply}

-- The items: a reply, the array and the object in it, and what they hold; an operators map.
data Item : Type 0 where
  a_reply an_array a_result a_flag a_number a_name a_map a_default an_entry an_empty a_bad_reply :
      Item

abbrev children : Item → List (Bytes × Item)
children a_reply =
    (codes "Result", an_array)
    ∷ (codes "LRN", a_number)
    ∷ (codes "lrn", a_number)
    ∷ (codes "name", a_number)
    ∷ (codes "JURISDICTION", a_name)
    ∷ []
children an_array = ([], a_result) ∷ []
children a_result =
    (codes "IsPorted", a_flag) ∷ (codes "Number", a_number) ∷ (codes "TheOperator", a_name) ∷ []
children a_map = (codes "MTN", an_entry) ∷ (codes "default", a_default) ∷ []
children a_bad_reply = (codes "LRN", a_number) ∷ (codes "JURISDICTION", an_empty) ∷ []
children _ = []

abbrev types : Item → JsonType
types a_reply = json_object
types an_array = json_array
types a_result = json_object
types a_flag = json_number
types a_number = json_string
types a_name = json_string
types a_map = json_object
types a_default = json_number
types an_entry = json_number
types an_empty = json_string
types a_bad_reply = json_object

abbrev strings : Item → Bytes
strings a_number = codes "123"
strings a_name = codes "MTN"
strings _ = []

abbrev integers : Item → ℤ
integers a_flag = pos 1
integers a_default = pos 40
integers an_entry = pos 41
integers _ = pos 0

-- A text is parsed as the bad reply if it is empty, and as the reply if not.
abbrev read : Bytes → Option Item
read [] = some a_bad_reply
read (c ∷ s) = some a_reply

abbrev tree : JsonLibrary
tree = record {
  Node = Item;
  parse_json = read;
  type_of = types;
  child = children;
  valuestring = strings;
  valueint = integers;
  get_object_item = λ n key. lookup equal key (children n);
  create_object = an_empty;
  add_item_reference = λ o key n. n;
  print_unformatted = λ n. strings n;
  out_of_range_what = codes "out of range";
}

abbrev request : ResolverRequest
request = record {
  id = 77;
  type = pos 0;
  db_id = pos 0;
  client_info = record { addr = (1, 2); addr_size = 16; recv_fd = pos 3 };
  number = codes "12";
  req_start = 0;
  is_done = false;
  result = empty_result;
}

lrn_IsPlain : IsPlain (codes "123")
lrn_IsPlain = (λ e. cc, (refl, (refl, (refl, tt))))

tag_IsPlain : IsPlain (codes "MTN")
tag_IsPlain = (λ e. cc, (refl, (refl, (refl, tt))))

body_IsObject : IsObject tree (codes "x") a_reply
unfolding c_str
body_IsObject = (refl, refl)

has_lrn : HasText tree a_reply (codes "LRN") (codes "123")
unfolding lookup
has_lrn = (a_number, refl, refl, refl)

has_tag : HasText tree a_reply (codes "JURISDICTION") (codes "MTN")
unfolding lookup
has_tag = (a_name, refl, refl, refl)

abbrev operators : CoureAnq.OperatorsMap
operators = record { entries = (codes "MTN", 41) ∷ []; default_value = 40 }

reads_operators : CoureAnq.parse_operators tree a_map ≡ some operators
unfolding CoureAnq.parse_operators emplace
reads_operators = refl

parse_operators-value_at_example :
    (json_object ≡ json_object)
    × All (IsNumber tree) (children a_map)
    × (count (λ c. equal c.0 default_key) (children a_map) ≡ 1)
    × (value_at tree default_key (children a_map) ≡ some 40)
    × ((name : Bytes)
        → name ≢ default_key
        → CoureAnq.resolve_operator operators name
          ≡ CoureAnq.value_or 40 (value_at tree name (children a_map)))
parse_operators-value_at_example = parse_operators-value_at tree a_map operators reads_operators

abbrev coure_anq : CoureAnq.CoureAnqCfg
coure_anq = record {
  uniq_id = pos 5;
  base_url = codes "http://h";
  username = codes "u";
  password = codes "p";
  country_code = codes "ng";
  timeout = 10;
  operators_map = operators;
}

ported_IsReply : IsReply tree (codes "x") a_result (pos 1)
unfolding c_str lookup
ported_IsReply = record {
  root = a_reply;
  array = an_array;
  ported = a_flag;
  name = [];
  others = [];
  parsed = refl;
  root_object = refl;
  has_result = refl;
  result_array = refl;
  first = refl;
  first_object = refl;
  has_ported = refl;
  ported_number = refl;
  ported_value = refl;
}

parse-IsReply_example :
    ((number operator_name : Bytes)
      → pos 1 ≡ pos 1
      → HasText tree a_result (codes "Number") number
      → IsPlain number
      → HasText tree a_result (codes "TheOperator") operator_name
      → IsPlain operator_name
      → CoureAnq.parse tree coure_anq (codes "x") request
        ≡ inr (record {
          local_routing_number = number;
          local_routing_tag = to_string (CoureAnq.resolve_operator operators operator_name);
          raw_data = codes "x";
        }))
    × ((pos 1 ≡ pos 0) ⊎ (pos 1 ≡ pos 2)
        → CoureAnq.parse tree coure_anq (codes "x") request
          ≡ inr (record {
            local_routing_number = codes "12";
            local_routing_tag = [];
            raw_data = codes "x";
          }))
    × (pos 1 ≢ pos 0
        → pos 1 ≢ pos 1
        → pos 1 ≢ pos 2
        → CoureAnq.parse tree coure_anq (codes "x") request
          ≡ inl (driver_error (codes "unexpected ported \"IsPorted\" value in reply")))
parse-IsReply_example =
    parse-IsReply tree coure_anq (codes "x") request a_result (pos 1) ported_IsReply
