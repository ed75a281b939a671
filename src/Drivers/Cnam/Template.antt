-- ===== src/Drivers/Cnam/Template.antt =====
-- URL templates of the CNAM driver: how a URL falls into its parts, and what they are filled with.
use mathlib.Core.List.{append-nil, append_assoc}
use yeti_lnp_resolver.Base.{
  ℕ, ◌≡◌, ◌≢◌, refl, sym, ap, ◌∙◌, inl, inr, false, List, [], ◌∷◌, ◌++◌, Bytes, ◌==◌, ==_iff, Lacks,
  Lacks-append, Bool-cases, All, All-append,
}
use yeti_lnp_resolver.Drivers.Cnam.{
  UriPart, string_part, placeholder_part, TemplateState, normal, placeholder, Scan, scanning,
  failed, save_string, close_placeholder, scan_char, scan_url, finish_scan, parse_url_template,
}

-- A URL made of parts.
abbrev pub part_source : UriPart → Bytes
part_source (string_part s) = s
part_source (placeholder_part key) = b'{' ∷ (key ++ (b'}' ∷ []))

abbrev pub source_of : List UriPart → Bytes
source_of [] = []
source_of (p ∷ parts) = part_source p ++ source_of parts

source_of-append : (xs ys : List UriPart) → source_of (xs ++ ys) ≡ source_of xs ++ source_of ys
source_of-append [] ys = refl
source_of-append (p ∷ xs) ys =
    ap (λ s. part_source p ++ s) (source_of-append xs ys) ∙ sym (append_assoc (part_source p) _ _)

-- A part holds no brace, and is not empty.
abbrev pub IsText : Bytes → Type 0
IsText s = Lacks b'{' s × Lacks b'}' s

abbrev pub IsPart : UriPart → Type 0
IsPart (string_part s) = (s ≢ []) × IsText s
IsPart (placeholder_part key) = (key ≢ []) × IsText key

-- What the scan has read so far.
abbrev opened : TemplateState → Bytes
opened normal = []
opened placeholder = b'{' ∷ []

abbrev Consumed : Bytes → Scan → Type 0
Consumed read (failed what) = Unit
Consumed read (scanning st part parts) =
    (read ≡ source_of parts ++ (opened st ++ part)) × IsText part × All IsPart parts

source_of-snoc :
    (parts : List UriPart) (p : UriPart)
    → source_of (parts ++ (p ∷ [])) ≡ source_of parts ++ part_source p
source_of-snoc parts p =
    source_of-append parts (p ∷ []) ∙ ap (λ s. source_of parts ++ s) (append-nil (part_source p))

source_of-save_string :
    (part : Bytes) (parts : List UriPart)
    → source_of (save_string part parts) ≡ source_of parts ++ part
source_of-save_string [] parts = sym (append-nil (source_of parts))
source_of-save_string (c ∷ s) parts = source_of-snoc parts (string_part (c ∷ s))

save_string-All :
    (part : Bytes) (parts : List UriPart)
    → IsText part
    → All IsPart parts
    → All IsPart (save_string part parts)
save_string-All [] parts t h = h
save_string-All (c ∷ s) parts t h =
    All-append IsPart parts (string_part (c ∷ s) ∷ []) h ((λ e. cc, t), tt)

IsText-snoc :
    (part : Bytes) (c : ℕ)
    → IsText part
    → (c == b'{') ≡ false
    → (c == b'}') ≡ false
    → IsText (part ++ (c ∷ []))
IsText-snoc part c t no_open no_close = (
  Lacks-append b'{' part (c ∷ []) t.0 (no_open, tt),
  Lacks-append b'}' part (c ∷ []) t.1 (no_close, tt),
)

close_placeholder-Consumed :
    (read part : Bytes) (parts : List UriPart)
    → Consumed read (scanning placeholder part parts)
    → Consumed (read ++ (b'}' ∷ [])) (close_placeholder part parts)
close_placeholder-Consumed read [] parts h = tt
close_placeholder-Consumed read (c ∷ s) parts (e, t, all) = (
  rw e (
      append_assoc (source_of parts) (b'{' ∷ c ∷ s) (b'}' ∷ [])
      ∙ sym (source_of-snoc parts (placeholder_part (c ∷ s)))
      ∙ sym (append-nil (source_of (parts ++ (placeholder_part (c ∷ s) ∷ []))))),
  (tt, tt),
  All-append IsPart parts (placeholder_part (c ∷ s) ∷ []) all ((λ x. cc, t), tt),
)

scan_char-Consumed :
    (read : Bytes) (s : Scan) (c : ℕ)
    → Consumed read s
    → Consumed (read ++ (c ∷ [])) (scan_char s c)
unfolding scan_char
scan_char-Consumed read (failed what) c h = tt
scan_char-Consumed read (scanning normal part parts) c (e, t, all) = elim (Bool-cases (c == b'{')) [
  | inl open_brace ↦ rw open_brace (
    rw ((==_iff c b'{').0 open_brace, e)
        (ap (λ x. x ++ (b'{' ∷ [])) (sym (source_of-save_string part parts))),
    (tt, tt),
    save_string-All part parts t all,
  )
  | inr no_open ↦ elim (Bool-cases (c == b'}')) [
    | inl close_brace ↦ rw (no_open, close_brace) tt
    | inr no_close ↦
        rw (no_open, no_close)
          (
            rw e (append_assoc (source_of parts) part (c ∷ [])),
            IsText-snoc part c t no_open no_close,
            all,
          )
  ]
]
scan_char-Consumed read (scanning placeholder part parts) c (e, t, all) =
    elim (Bool-cases (c == b'}')) [
      | inl close_brace ↦
          rw (close_brace, (==_iff c b'}').0 close_brace)
            (close_placeholder-Consumed read part parts (e, t, all))
      | inr no_close ↦ elim (Bool-cases (c == b'{')) [
        | inl open_brace ↦ rw (no_close, open_brace) tt
        | inr no_open ↦
            rw (no_close, no_open)
              (
                rw e (append_assoc (source_of parts) (b'{' ∷ part) (c ∷ [])),
                IsText-snoc part c t no_open no_close,
                all,
              )
      ]
    ]

scan_url-Consumed :
    (url read : Bytes) (s : Scan) → Consumed read s → Consumed (read ++ url) (scan_url s url)
unfolding scan_url
scan_url-Consumed [] read s h = rw (append-nil read) h
scan_url-Consumed (c ∷ url) read s h =
    rw (sym (append_assoc read (c ∷ []) url))
      (scan_url-Consumed url (read ++ (c ∷ [])) (scan_char s c) (scan_char-Consumed read s c h))

finish_scan-source :
    (read : Bytes) (s : Scan) (parts : List UriPart)
    → Consumed read s
    → finish_scan s ≡ inr parts
    → (source_of parts ≡ read) × All IsPart parts
finish_scan-source read (failed what) parts h e = cc
finish_scan-source read (scanning placeholder part done) parts h e = cc
finish_scan-source read (scanning normal part done) parts (r, t, all) e =
    let same : save_string part done ≡ parts = cc in
    (
      rw (sym same) (source_of-save_string part done ∙ sym r),
      rw (sym same) (save_string-All part done t all),
    )

-- The parts of a URL template that is accepted, written out again, give the template; no part is
-- empty or holds a brace.
parse_url_template-source_of :
    (url : Bytes) (parts : List UriPart)
    → parse_url_template url ≡ inr parts
    → (source_of parts ≡ url) × All IsPart parts
unfolding parse_url_template
parse_url_template-source_of url parts e =
    finish_scan-source url (scan_url (scanning normal [] []) url) parts
      (scan_url-Consumed url [] (scanning normal [] []) (refl, (tt, tt), tt)) e

-- A template: static text, which may be empty, before each of its keys, and behind the last one.
abbrev pub template_of : List (Bytes × Bytes) → Bytes → Bytes
template_of [] tail = tail
template_of ((text, key) ∷ more) tail = text ++ (b'{' ∷ (key ++ (b'}' ∷ template_of more tail)))

abbrev pub parts_onto : List UriPart → List (Bytes × Bytes) → Bytes → List UriPart
parts_onto parts [] tail = save_string tail parts
parts_onto parts ((text, key) ∷ more) tail =
    parts_onto (save_string text parts ++ (placeholder_part key ∷ [])) more tail

abbrev pub IsSegment : Bytes × Bytes → Type 0
IsSegment (text, key) = IsText text × (key ≢ []) × IsText key

scan_url_text :
    (st : TemplateState) (part s rest : Bytes) (parts : List UriPart)
    → IsText s
    → scan_url (scanning st part parts) (s ++ rest) ≡ scan_url (scanning st (part ++ s) parts) rest
unfolding scan_url scan_char
scan_url_text st part [] rest parts t = rw (append-nil part)
scan_url_text normal part (c ∷ s) rest parts (no_open, no_close) =
    rw (scan_url, scan_char, no_open.0, no_close.0)
      (scan_url_text normal (part ++ (c ∷ [])) s rest parts (no_open.1, no_close.1)
        ∙ ap (λ x. scan_url (scanning normal x parts) rest) (append_assoc part (c ∷ []) s))
scan_url_text placeholder part (c ∷ s) rest parts (no_open, no_close) =
    rw (scan_url, scan_char, no_close.0, no_open.0)
      (scan_url_text placeholder (part ++ (c ∷ [])) s rest parts (no_open.1, no_close.1)
        ∙ ap (λ x. scan_url (scanning placeholder x parts) rest) (append_assoc part (c ∷ []) s))

close_placeholder_lem :
    (key : Bytes) (parts : List UriPart)
    → key ≢ []
    → close_placeholder key parts ≡ scanning normal [] (parts ++ (placeholder_part key ∷ []))
close_placeholder_lem [] parts ne = absurd (ne refl)
close_placeholder_lem (c ∷ key) parts ne = refl

scan_url-template_of :
    (segments : List (Bytes × Bytes)) (tail : Bytes) (parts : List UriPart)
    → All IsSegment segments
    → IsText tail
    → finish_scan (scan_url (scanning normal [] parts) (template_of segments tail))
      ≡ inr (parts_onto parts segments tail)
unfolding scan_url scan_char
scan_url-template_of [] tail parts h t =
    ap (λ x. finish_scan (scan_url (scanning normal [] parts) x)) (sym (append-nil tail))
    ∙ ap finish_scan (scan_url_text normal [] tail [] parts t)
scan_url-template_of ((text, key) ∷ more) tail parts ((t, ne, k), h) u =
    ap finish_scan (
      scan_url_text normal [] text (b'{' ∷ (key ++ (b'}' ∷ template_of more tail))) parts t
      ∙ scan_url_text placeholder [] key (b'}' ∷ template_of more tail) (save_string text parts) k
      ∙ ap (λ s. scan_url s (template_of more tail))
          (close_placeholder_lem key (save_string text parts) ne))
    ∙ scan_url-template_of more tail (save_string text parts ++ (placeholder_part key ∷ [])) h u

-- A template whose texts and keys hold no brace, and whose keys are not empty, is accepted, with
-- its keys and those of its texts that are not empty, in order.
pub parse_url_template-template_of :
    (segments : List (Bytes × Bytes)) (tail : Bytes)
    → All IsSegment segments
    → IsText tail
    → parse_url_template (template_of segments tail) ≡ inr (parts_onto [] segments tail)
unfolding parse_url_template
parse_url_template-template_of segments tail h t = scan_url-template_of segments tail [] h t
