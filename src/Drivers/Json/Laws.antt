-- ===== src/Drivers/Json/Laws.antt =====
-- Quotes around the strings of a reply, and the string under a key.
use yeti_lnp_resolver.Base.{
  ◌≡◌, ◌≢◌, refl, ◌⊎◌, ◌↔◌, inl, inr, Option, none, some, [], ◌∷◌, ◌++◌, Bytes, arith, Lacks,
  Option-cases,
}
use yeti_lnp_resolver.Drivers.Json.{
  JsonLibrary, json_string, json_object, strip_last, strip_first, strip_quotes, string_at, item,
  item_string, or_what,
}

strip_last-snoc : (s : Bytes) → strip_last (s ++ (b'"' ∷ [])) ≡ some s
unfolding strip_last
strip_last-snoc [] = refl
strip_last-snoc (c ∷ []) = refl
strip_last-snoc (c ∷ d ∷ s) = rw (strip_last-snoc (d ∷ s)) refl

strip_last-Lacks : (s : Bytes) → s ≢ [] → Lacks b'"' s → strip_last s ≡ some s
unfolding strip_last
strip_last-Lacks [] ne h = absurd (ne refl)
strip_last-Lacks (c ∷ []) ne h = rw (h.0) refl
strip_last-Lacks (c ∷ d ∷ s) ne h = rw (strip_last-Lacks (d ∷ s) (λ e. cc) h.1) refl

strip_last-fails : (s : Bytes) → strip_last s ≡ none → s ≡ []
unfolding strip_last
strip_last-fails [] e = refl
strip_last-fails (c ∷ []) e = ground arith
strip_last-fails (c ∷ d ∷ s) e = elim (Option-cases (strip_last (d ∷ s))) [
  | inl f ↦ absurd (cons-nil (strip_last-fails (d ∷ s) f))
  | inr (t, g) ↦ absurd (some-none (c ∷ t) (rw g at e))
]
  where
    cons-nil : (d ∷ s) ≢ []
    cons-nil h = cc

    some-none : (a : Bytes) → some a ≢ none
    some-none a h = cc

-- A pair of quotes around a text is taken off, whatever stands between them.
pub strip_quotes-quoted : (s : Bytes) → strip_quotes (b'"' ∷ (s ++ (b'"' ∷ []))) ≡ some s
unfolding strip_quotes
strip_quotes-quoted s = strip_last-snoc s

-- A text without quotes stays as it is, and no text but the empty one and a lone quote fails.
pub strip_quotes-Lacks : (s : Bytes) → s ≢ [] → Lacks b'"' s → strip_quotes s ≡ some s
unfolding strip_quotes
strip_quotes-Lacks [] ne h = absurd (ne refl)
strip_quotes-Lacks (c ∷ s) ne h = rw h.0 (strip_last-Lacks (c ∷ s) ne h)

strip_first-fails : (s : Bytes) → strip_first s ≡ [] → (s ≡ []) ⊎ (s ≡ b'"' ∷ [])
strip_first-fails [] e = inl refl
strip_first-fails (c ∷ s) e = ground arith

-- The removal of the quotes throws exactly on the empty text and on a lone quote.
pub strip_quotes_fails : (s : Bytes) → (strip_quotes s ≡ none) ↔ ((s ≡ []) ⊎ (s ≡ b'"' ∷ []))
unfolding strip_quotes
strip_quotes_fails s = (λ e. strip_first-fails s (strip_last-fails (strip_first s) e), fails s)
  where
    fails : (s : Bytes) → (s ≡ []) ⊎ (s ≡ b'"' ∷ []) → strip_last (strip_first s) ≡ none
    fails s (inl e) = rw e refl
    fails s (inr e) = rw e refl

-- The object has a string under the key.
abbrev pub HasText : (j : JsonLibrary) → j.Node → Bytes → Bytes → Type 0
HasText j n key text =
    (i : j.Node) × (j.get_object_item n key ≡ some i)
    × (j.type_of i ≡ json_string)
    × (j.valuestring i ≡ text)

string_at-strip_quotes :
    (j : JsonLibrary) (n : j.Node) (key text : Bytes) (stripped : Option Bytes)
    → j.type_of n ≡ json_object
    → HasText j n key text
    → strip_quotes text ≡ stripped
    → string_at j n key ≡ or_what j.out_of_range_what stripped
unfolding string_at item item_string
string_at-strip_quotes j n key text stripped o (i, has, type, value) e = rw (o, has, type, value, e)

-- A string under a key, without quotes and not empty, is read as it is.
pub string_at-HasText :
    (j : JsonLibrary) (n : j.Node) (key text : Bytes)
    → j.type_of n ≡ json_object
    → HasText j n key text
    → text ≢ []
    → Lacks b'"' text
    → string_at j n key ≡ inr text
string_at-HasText j n key text o h ne lacks =
    string_at-strip_quotes j n key text (some text) o h (strip_quotes-Lacks text ne lacks)

-- An empty string under a key throws.
pub string_at_empty :
    (j : JsonLibrary) (n : j.Node) (key : Bytes)
    → j.type_of n ≡ json_object
    → HasText j n key []
    → string_at j n key ≡ inl j.out_of_range_what
unfolding strip_quotes strip_last
string_at_empty j n key o h = string_at-strip_quotes j n key [] none o h refl
