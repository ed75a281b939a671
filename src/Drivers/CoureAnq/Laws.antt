-- ===== src/Drivers/CoureAnq/Laws.antt =====
-- The operators map, and the tag that a ported number gets.
use yeti_lnp_resolver.Base.{
  ℕ, ◌+◌, ◌≡◌, ◌≢◌, refl, sym, ap, ◌∙◌, inl, inr, true, Option, none, some, List, [], ◌∷◌, Bytes,
  codes, if◌then◌else◌, equal, equal_iff, Bool-cases, Option-cases, or_else, All, arith,
}
use yeti_lnp_resolver.Base.Counting.{count}
use yeti_lnp_resolver.Base.Assoc.{lookup, emplace, lookup-emplace}
use yeti_lnp_resolver.Drivers.Json.{
  JsonLibrary, JsonType, json_object, is_object, is_number, get_json_int,
}
use yeti_lnp_resolver.Drivers.CoureAnq.{
  OperatorsMap, Reading, read_default, read_entry, read_child, read_children, finish_reading,
  parse_operators, resolve_operator, value_or, to_unsigned,
}

abbrev nothing_read : Reading
nothing_read = record { entries = []; default_value = none }

is_object-type : (t : JsonType) → is_object t ≡ true → t ≡ json_object
is_object-type json_object e = refl
is_object-type _ e = cc

abbrev pub default_key : Bytes
default_key = codes "default"

-- How many defaults were read.
abbrev number_of : Option ℕ → ℕ
number_of none = 0
number_of (some d) = 1

abbrev defaults : Reading → ℕ
defaults s = number_of s.default_value

module _ (j : JsonLibrary) where
  -- The number of the first child with the name.
  abbrev pub value_at : Bytes → List (Bytes × j.Node) → Option ℕ
  value_at name [] = none
  value_at name ((key, n) ∷ cs) =
      if equal key name then some (to_unsigned (j.valueint n)) else value_at name cs

  abbrev pub IsNumber : Bytes × j.Node → Type 0
  IsNumber (key, n) = is_number (j.type_of n) ≡ true

  read_child-IsNumber :
      (s t : Reading) (c : Bytes × j.Node) → read_child j s c ≡ some t → IsNumber c
  unfolding read_child get_json_int
  read_child-IsNumber s t (key, n) e = elim (Bool-cases (is_number (j.type_of n))) [
    | inl number ↦ number
    | inr no_number ↦ cc (rw no_number at e)
  ]

  read_children-IsNumber :
      (s t : Reading) (cs : List (Bytes × j.Node)) → read_children j s cs ≡ some t → All IsNumber cs
  unfolding read_children
  read_children-IsNumber s t [] e = tt
  read_children-IsNumber s t (c ∷ cs) e = elim (Option-cases (read_child j s c)) [
    | inl f ↦ cc (rw f at e)
    | inr (u, f) ↦ (read_child-IsNumber s u c f, read_children-IsNumber u t cs (rw f at e))
  ]

  read_entry-defaults :
      (s t : Reading) (key : Bytes) (v : ℕ)
      → read_entry s key v ≡ some t
      → defaults t ≡ defaults s + (if equal key default_key then 1 else 0)
  read_entry-defaults s t key v e = elim (Bool-cases (equal key default_key)) [
    | inl is_default ↦ elim (Option-cases s.default_value) [
      | inl first ↦
          let same : record s { default_value = some v } ≡ t = cc (rw (is_default, first) at e) in
          rw (sym same, is_default, first) refl
      | inr (m, again) ↦ cc (rw (is_default, again) at e)
    ]
    | inr other ↦
        let same : record s { entries = emplace equal key v s.entries } ≡ t = cc (rw other at e) in
        rw (sym same, other) (omega arith)
  ]

  read_child-defaults :
      (s t : Reading) (c : Bytes × j.Node)
      → read_child j s c ≡ some t
      → defaults t ≡ defaults s + (if equal c.0 default_key then 1 else 0)
  unfolding read_child get_json_int
  read_child-defaults s t (key, n) e = elim (Bool-cases (is_number (j.type_of n))) [
    | inl number ↦ read_entry-defaults s t key _ (rw number at e)
    | inr no_number ↦ cc (rw no_number at e)
  ]

  read_children-defaults :
      (s t : Reading) (cs : List (Bytes × j.Node))
      → read_children j s cs ≡ some t
      → defaults t ≡ defaults s + count (λ c. equal c.0 default_key) cs
  unfolding read_children
  read_children-defaults s t [] e = ground arith
  read_children-defaults s t (c ∷ cs) e = elim (Option-cases (read_child j s c)) [
    | inl f ↦ cc (rw f at e)
    | inr (u, f) ↦
        omega (arith, read_child-defaults s u c f, read_children-defaults u t cs (rw f at e))
  ]

  -- What the loop has made of the children it has read.
  record Agrees (s : Reading) (cs : List (Bytes × j.Node)) (t : Reading) : Type 0 where
    entries :
        (name : Bytes)
        → name ≢ default_key
        → lookup equal name t.entries ≡ or_else (lookup equal name s.entries) (value_at name cs)
    default_value : t.default_value ≡ or_else s.default_value (value_at default_key cs)

  or_else-none : (o : Option ℕ) → or_else o none ≡ o
  or_else-none none = refl
  or_else-none (some a) = refl

  read_default-Agrees :
      (s t : Reading) (key : Bytes) (n : j.Node)
      → key ≡ default_key
      → read_default s (to_unsigned (j.valueint n)) ≡ some t
      → Agrees s ((key, n) ∷ []) t
  read_default-Agrees s t key n k e = elim (Option-cases s.default_value) [
    | inl first ↦
        let same : record s { default_value = some (to_unsigned (j.valueint n)) } ≡ t =
          cc (rw first at e) in
        rw (sym same) (record {
          entries = λ name ne. ground (arith, equal_iff key name);
          default_value = ground (arith, equal_iff key default_key);
        })
    | inr (m, again) ↦ cc (rw again at e)
  ]

  read_entry-Agrees :
      (s t : Reading) (key : Bytes) (n : j.Node)
      → read_entry s key (to_unsigned (j.valueint n)) ≡ some t
      → Agrees s ((key, n) ∷ []) t
  read_entry-Agrees s t key n e = elim (Bool-cases (equal key default_key)) [
    | inl is_default ↦
        read_default-Agrees s t key n ((equal_iff key default_key).0 is_default)
          (rw is_default at e)
    | inr other ↦
        let number = to_unsigned (j.valueint n) in
        let same : record s { entries = emplace equal key number s.entries } ≡ t =
          cc (rw other at e) in
        rw (sym same) (record {
          entries = λ name ne. lookup-emplace equal equal_iff key name number s.entries;
          default_value = rw other (sym (or_else-none s.default_value));
        })
  ]

  Agrees-trans :
      (s t u : Reading) (c : Bytes × j.Node) (cs : List (Bytes × j.Node))
      → Agrees s (c ∷ []) t
      → Agrees t cs u
      → Agrees s (c ∷ cs) u
  Agrees-trans s t u (key, n) cs x y = record {
    entries = λ name ne. ground (arith, x.entries name ne, y.entries name ne);
    default_value = ground (arith, x.default_value, y.default_value);
  }

  read_child-Agrees :
      (s t : Reading) (c : Bytes × j.Node) → read_child j s c ≡ some t → Agrees s (c ∷ []) t
  unfolding read_child get_json_int
  read_child-Agrees s t (key, n) e = elim (Bool-cases (is_number (j.type_of n))) [
    | inl number ↦ read_entry-Agrees s t key n (rw number at e)
    | inr no_number ↦ cc (rw no_number at e)
  ]

  read_children-Agrees :
      (s t : Reading) (cs : List (Bytes × j.Node)) → read_children j s cs ≡ some t → Agrees s cs t
  unfolding read_children
  read_children-Agrees s t [] e =
      let same : s ≡ t = cc in
      rw (sym same) (record {
        entries = λ name ne. sym (or_else-none (lookup equal name s.entries));
        default_value = sym (or_else-none s.default_value);
      })
  read_children-Agrees s t (c ∷ cs) e = elim (Option-cases (read_child j s c)) [
    | inl f ↦ cc (rw f at e)
    | inr (u, f) ↦
        Agrees-trans s u t c cs (read_child-Agrees s u c f)
          (read_children-Agrees u t cs (rw f at e))
  ]

  finish_reading-inv :
      (s : Reading) (m : OperatorsMap)
      → finish_reading s ≡ some m
      → (s.default_value ≡ some m.default_value) × (m.entries ≡ s.entries)
  finish_reading-inv s m e = elim (Option-cases s.default_value) [
    | inl missing ↦ cc (rw missing at e)
    | inr (d, found) ↦
        let same : record { entries = s.entries; default_value = d } ≡ m = cc (rw found at e) in
        rw (sym same) (found, refl)
  ]

  -- An operators map that is accepted comes from an object whose children are all numbers, exactly
  -- one of them under "default". It resolves every other name to the number of the first child
  -- with the name, or to the default if there is none.
  pub parse_operators-value_at :
      (n : j.Node) (m : OperatorsMap)
      → parse_operators j n ≡ some m
      → (j.type_of n ≡ json_object)
        × All IsNumber (j.child n)
        × (count (λ c. equal c.0 default_key) (j.child n) ≡ 1)
        × (value_at default_key (j.child n) ≡ some m.default_value)
        × ((name : Bytes)
            → name ≢ default_key
            → resolve_operator m name ≡ value_or m.default_value (value_at name (j.child n)))
  unfolding parse_operators resolve_operator lookup
  parse_operators-value_at n m e = elim (Bool-cases (is_object (j.type_of n))) [
    | inr no_object ↦ cc (rw no_object at e)
    | inl object ↦ elim (Option-cases (read_children j nothing_read (j.child n))) [
      | inl f ↦ cc (rw (object, f) at e)
      | inr (t, f) ↦
          let (found, same) = finish_reading-inv t m (rw (object, f) at e) in
          let agrees = read_children-Agrees nothing_read t (j.child n) f in
          (
            is_object-type (j.type_of n) object,
            read_children-IsNumber nothing_read t (j.child n) f,
            omega (arith, read_children-defaults nothing_read t (j.child n) f, ap number_of found),
            sym agrees.default_value ∙ found,
            λ name ne.
                ap (value_or m.default_value)
                  (ap (λ es. lookup equal name es) same ∙ agrees.entries name ne),
          )
    ]
  ]
