-- ===== src/Drivers/CoureAnq.antt =====
-- src/drivers/HttpCoureAnqDriver.cpp: the operators map, the request and the reply.
pub mod Laws
pub mod Ported
use yeti_lnp_resolver.Base.{
  ℕ, ◌+◌, ◌-◌, Bool, true, false, not, Option, none, some, List, [], ◌∷◌, ◌++◌, Bytes, codes, ◌==◌,
  if◌then◌else◌, equal, ◌⊎◌, inl, inr, ℤ, pos, negsuc, eq_ℤ, c_str,
}
use yeti_lnp_resolver.Base.Assoc.{lookup, emplace}
use yeti_lnp_resolver.Base.Decimal.{to_string}
use yeti_lnp_resolver.Types.{
  ResolverRequest, SResult, HttpRequest, AuthType, auth_none, Exception, driver_error, other,
}
use yeti_lnp_resolver.Resolver.State.{Action, fetch, Driver}
use yeti_lnp_resolver.Drivers.Json.{
  JsonLibrary, JsonType, json_array, is_object, is_number, get_json_string, get_json_int,
  get_by_key,
}
use yeti_lnp_resolver.Drivers.Http.{json_header}

-- `static_cast<unsigned int>` of an `int`
abbrev pub to_unsigned : ℤ → ℕ
to_unsigned (pos n) = n
to_unsigned (negsuc n) = 4294967296 - (n + 1)

pub record OperatorsMap : Type 0 where
  pub entries : List (Bytes × ℕ)
  pub default_value : ℕ

-- The loop over the children: `none` is an exception. The map so far, and the default if it was met.
pub record Reading : Type 0 where
  pub entries : List (Bytes × ℕ)
  pub default_value : Option ℕ

abbrev pub read_default : Reading → ℕ → Option Reading
read_default s n = elim s.default_value [
  | none ↦ some (record s { default_value = some n })
  | some m ↦ none
]

abbrev pub read_entry : Reading → Bytes → ℕ → Option Reading
read_entry s key n =
    if equal key (codes "default")
    then read_default s n
    else some (record s { entries = emplace equal key n s.entries })

infixl 5 ◌>>=◌
abbrev pub ◌>>=◌ {ℓ κ} : {A : Type ℓ} {B : Type κ} → Option A → (A → Option B) → Option B
none >>= f = none
some a >>= f = f a

abbrev pub finish_reading : Reading → Option OperatorsMap
finish_reading s = elim s.default_value [
  | none ↦ none
  | some d ↦ some (record { entries = s.entries; default_value = d })
]

-- `OperatorsMap_t::resolve`
abbrev pub value_or : ℕ → Option ℕ → ℕ
value_or d none = d
value_or d (some n) = n

unfoldable pub resolve_operator : OperatorsMap → Bytes → ℕ
resolve_operator m operator_name = value_or m.default_value (lookup equal operator_name m.entries)

pub record CoureAnqCfg : Type 0 where
  pub uniq_id : ℤ
  pub base_url : Bytes
  pub username : Bytes
  pub password : Bytes
  pub country_code : Bytes
  pub timeout : ℕ
  pub operators_map : OperatorsMap

unfoldable pub url_prefix : CoureAnqCfg → Bytes
url_prefix c =
    c.base_url
    ++ (codes "/api/json/LookUpNumber/GsmPortStatus?"
        ++ (codes "username="
            ++ (c.username
                ++ (codes "&password="
                    ++ (c.password
                        ++ (codes "&ServiceType=4"
                            ++ (codes "&country="
                                ++ (c.country_code ++ codes "&numbersToLookUp="))))))))

unfoldable pub resolve : CoureAnqCfg → ResolverRequest → Action
unfolding url_prefix
resolve c r = fetch (record {
  id = r.id;
  url = some (c_str (url_prefix c ++ r.number));
  auth_type = auth_none;
  login = none;
  pass = none;
  verify_ssl = false;
  timeout_ms = c.timeout;
  headers = json_header ∷ [];
})

abbrev pub is_array : JsonType → Bool
is_array json_array = true
is_array _ = false

abbrev pub or_other {ℓ} : {A : Type ℓ} → Option A → Exception ⊎ A
or_other none = inl other
or_other (some a) = inr a

abbrev pub or_driver_error {ℓ} : {A : Type ℓ} → Bytes → Option A → Exception ⊎ A
or_driver_error what none = inl (driver_error what)
or_driver_error what (some a) = inr a

abbrev pub guard : Bool → Bytes → Exception ⊎ Unit {0}
guard true what = inr tt
guard false what = inl (driver_error what)

-- The left side is the exception thrown.
infixl 5 ◌then_do◌
abbrev pub ◌then_do◌ {ℓ κ} :
    {A : Type ℓ} {B : Type κ} → Exception ⊎ A → (A → Exception ⊎ B) → Exception ⊎ B
inl e then_do f = inl e
inr a then_do f = f a

module _ (j : JsonLibrary) where
  open j use {Node, parse_json, type_of, child, get_object_item}

  -- One child of the map.
  unfoldable pub read_child : Reading → Bytes × Node → Option Reading
  unfolding get_json_int
  read_child s (key, n) = do v ← get_json_int j n; read_entry s key (to_unsigned v)

  unfoldable pub read_children : Reading → List (Bytes × Node) → Option Reading
  unfolding read_child
  read_children s [] = some s
  read_children s (c ∷ cs) = do t ← read_child s c; read_children t cs

  -- `OperatorsMap_t::parse`
  unfoldable pub parse_operators : Node → Option OperatorsMap
  unfolding read_children
  parse_operators n =
      if is_object (type_of n)
      then (do
        s ← read_children (record { entries = []; default_value = none }) (child n)
        finish_reading s)
      else none

  -- The first item of the array "Result".
  abbrev pub first_child : List (Bytes × Node) → Option Node
  first_child [] = none
  first_child ((key, n) ∷ cs) = some n

  unfoldable pub result_item : Bytes → Exception ⊎ Node
  result_item body =
      or_driver_error (codes "failed to parse reply JSON") (parse_json (c_str body)) then_do λ n.
      guard (is_object (type_of n)) (codes "expected JSON object in reply") then_do λ _.
      or_driver_error (codes "no \"Result\" key in reply") (get_object_item n (codes "Result"))
      then_do λ a.
          guard (is_array (type_of a)) (codes "expected array in \"Result\" key in reply")
          then_do λ _.
              or_driver_error (codes "empty array in \"Result\" key in reply")
                (first_child (child a))
              then_do λ d.
                  guard (is_object (type_of d))
                    (codes "expected object array in \"Result\" key in reply")
                  then_do λ _. inr d

  -- The ported number and its operator's tag.
  unfoldable pub ported_result : OperatorsMap → Node → SResult → Exception ⊎ SResult
  unfolding get_by_key get_json_string resolve_operator
  ported_result m d result =
      or_other (do i ← get_by_key j d (codes "Number"); get_json_string j i) then_do λ number.
      or_other (do i ← get_by_key j d (codes "TheOperator"); get_json_string j i)
      then_do λ operator_name. inr (record result {
        local_routing_number = number;
        local_routing_tag = to_string (resolve_operator m operator_name);
      })

  -- The switch on "IsPorted".
  unfoldable pub on_ported :
      OperatorsMap → ResolverRequest → Node → SResult → ℤ → Exception ⊎ SResult
  unfolding ported_result
  on_ported m r d result ported =
      if eq_ℤ ported (pos 1)
      then ported_result m d result
      else if eq_ℤ ported (pos 0)
      then inr (record result { local_routing_number = r.number; local_routing_tag = [] })
      else if eq_ℤ ported (pos 2)
      then inr (record result { local_routing_number = r.number; local_routing_tag = [] })
      else inl (driver_error (codes "unexpected ported \"IsPorted\" value in reply"))

  -- `CHttpCoureAnqDriver::parse`
  unfoldable pub parse : CoureAnqCfg → Bytes → ResolverRequest → Exception ⊎ SResult
  unfolding result_item on_ported get_by_key get_json_int
  parse c body r = result_item body then_do λ d.
      or_other (do i ← get_by_key j d (codes "IsPorted"); get_json_int j i) then_do λ ported.
      on_ported c.operators_map r d (record r.result { raw_data = body }) ported

  unfoldable pub coure_anq_driver : CoureAnqCfg → Driver
  unfolding resolve parse
  coure_anq_driver c = record {
    unique_id = c.uniq_id;
    name = codes "Coure ANQ";
    driver_type = pos 0;
    resolve = resolve c;
    parse = parse c;
  }
