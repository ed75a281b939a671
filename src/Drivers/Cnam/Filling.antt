-- ===== src/Drivers/Cnam/Filling.antt =====
-- What a URL template becomes with the JSON object of a request.
use mathlib.Core.List.{append-nil, append_assoc}
use yeti_lnp_resolver.Base.{
  ◌≡◌, refl, sym, ap, ◌∙◌, inr, some, List, [], ◌∷◌, ◌++◌, Bytes, map, All, c_str,
}
use yeti_lnp_resolver.Drivers.Json.{JsonLibrary, json_string}
use yeti_lnp_resolver.Drivers.Cnam.{
  UriPart, placeholder_part, save_string, parse_url_template, part_text, get_url, found_text,
  item_text,
}
use yeti_lnp_resolver.Drivers.Cnam.Template.{
  template_of, parts_onto, IsSegment, IsText, parse_url_template-template_of,
}

-- A static text, a key, and the key's value in the request.
pub record Segment : Type 0 where
  pub text : Bytes
  pub key : Bytes
  pub value : Bytes

abbrev pub unfilled : Segment → Bytes × Bytes
unfilled s = (s.text, s.key)

-- The template with each placeholder replaced by its value.
abbrev pub filled : List Segment → Bytes → Bytes
filled [] tail = tail
filled (s ∷ more) tail = s.text ++ (s.value ++ filled more tail)

module _ (j : JsonLibrary) (n : j.Node) where
  -- The object has a string under the key: the value.
  abbrev pub HasString : Segment → Type 0
  HasString s =
      (i : j.Node) × (j.get_object_item n (c_str s.key) ≡ some i)
      × (j.type_of i ≡ json_string)
      × (c_str (j.valuestring i) ≡ s.value)

  get_url-save_string :
      (text : Bytes) (rest : List UriPart) (url : Bytes)
      → get_url j n rest ≡ inr url
      → get_url j n (save_string text [] ++ rest) ≡ inr (text ++ url)
  unfolding get_url
  get_url-save_string [] rest url e = e
  get_url-save_string (c ∷ text) rest url e = rw e

  get_url-placeholder :
      (s : Segment) (rest : List UriPart) (url : Bytes)
      → HasString s
      → get_url j n rest ≡ inr url
      → get_url j n (placeholder_part s.key ∷ rest) ≡ inr (s.value ++ url)
  unfolding get_url part_text found_text item_text
  get_url-placeholder s rest url (i, has, type, value) e = rw (has, type, value, e)

  save_string-append :
      (tail : Bytes) (xs ys : List UriPart)
      → save_string tail (xs ++ ys) ≡ xs ++ save_string tail ys
  save_string-append [] xs ys = refl
  save_string-append (c ∷ tail) xs ys = append_assoc xs ys _

  parts_onto-append :
      (xs ys : List UriPart) (segments : List (Bytes × Bytes)) (tail : Bytes)
      → parts_onto (xs ++ ys) segments tail ≡ xs ++ parts_onto ys segments tail
  parts_onto-append xs ys [] tail = save_string-append tail xs ys
  parts_onto-append xs ys ((text, key) ∷ more) tail =
      ap (λ p. parts_onto (p ++ (placeholder_part key ∷ [])) more tail)
        (save_string-append text xs ys)
      ∙ ap (λ p. parts_onto p more tail) (append_assoc xs (save_string text ys) _)
      ∙ parts_onto-append xs (save_string text ys ++ (placeholder_part key ∷ [])) more tail

  parts_onto-cons :
      (text key : Bytes) (more : List (Bytes × Bytes)) (tail : Bytes)
      → parts_onto [] ((text, key) ∷ more) tail
        ≡ save_string text [] ++ (placeholder_part key ∷ parts_onto [] more tail)
  parts_onto-cons text key more tail =
      ap (λ p. parts_onto p more tail)
        (sym (append-nil (save_string text [] ++ (placeholder_part key ∷ []))))
      ∙ parts_onto-append (save_string text [] ++ (placeholder_part key ∷ [])) [] more tail
      ∙ append_assoc (save_string text []) (placeholder_part key ∷ []) (parts_onto [] more tail)

  get_url-parts_onto :
      (segments : List Segment) (tail : Bytes)
      → All HasString segments
      → get_url j n (parts_onto [] (map unfilled segments) tail) ≡ inr (filled segments tail)
  get_url-parts_onto [] tail h =
      ap (get_url j n) (sym (append-nil (save_string tail [])))
      ∙ get_url-save_string tail [] [] (unfold get_url in refl)
      ∙ ap inr (append-nil tail)
  get_url-parts_onto (s ∷ more) tail h =
      ap (get_url j n) (parts_onto-cons s.text s.key (map unfilled more) tail)
      ∙ get_url-save_string s.text _ _
          (get_url-placeholder s _ _ h.0 (get_url-parts_onto more tail h.1))

  -- A template whose texts and keys hold no brace, and whose keys are not empty, is parsed, and
  -- filled with an object that has a string under each of its keys it gives the URL with every
  -- placeholder replaced by its value.
  pub get_url-filled :
      (segments : List Segment) (tail : Bytes)
      → All IsSegment (map unfilled segments)
      → IsText tail
      → All HasString segments
      → (parts : List UriPart) × (parse_url_template (template_of (map unfilled segments) tail)
          ≡ inr parts)
        × (get_url j n parts ≡ inr (filled segments tail))
  get_url-filled segments tail v t h = (
    parts_onto [] (map unfilled segments) tail,
    parse_url_template-template_of (map unfilled segments) tail v t,
    get_url-parts_onto segments tail h,
  )
