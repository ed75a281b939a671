-- ===== src/EasyClient/Requests.antt =====
-- The request that the synchronous client makes.
use yeti_lnp_resolver.Base.{
  ◌≡◌, refl, sym, ap, ◌∙◌, inl, inr, ℕ, Bool, List, [], ◌∷◌, ◌++◌, Bytes, codes, Bool-cases,
  if◌then◌else◌,
}
use mathlib.Core.Path.{subst}
use mathlib.Core.List.{append_assoc, append-nil}
use yeti_lnp_resolver.Types.{AuthType}
use yeti_lnp_resolver.HttpClient.Setup.{
  CurlOption, url, username, password, ssl_verifypeer, ssl_verifyhost, timeout_ms, no_signal,
  http_auth, http_header, write_function, write_data, error_buffer,
}
use yeti_lnp_resolver.EasyClient.{
  EasyCurl, EasyClient, Result, set, and_then, set_both, set_ssl_verification, set_auth_type,
  set_auth_data, set_timeout, set_header, set_write_callback, set_list, performed, perform,
}

-- The setters of the class, with their arguments.
pub data Setter : Type 0 where
  ssl : Bool → Setter
  auth : AuthType → Setter
  credentials : Bytes → Bytes → Setter
  timeout : ℕ → Setter
  header : Bytes → Setter
  callback : Setter

abbrev pub apply : EasyCurl → Setter → EasyClient → Result (Unit {0})
apply curl (ssl onoff) = set_ssl_verification curl onoff
apply curl (auth type) = set_auth_type curl type
apply curl (credentials login pass) = set_auth_data curl login pass
apply curl (timeout msec) = set_timeout curl msec
apply curl (header h) = set_header curl h
apply curl callback = set_write_callback curl

-- The options that a setter stands for, and its header.
abbrev pub options_of : Setter → List CurlOption
options_of (ssl onoff) =
    let verify = if onoff then 2 else 0 in ssl_verifypeer verify ∷ ssl_verifyhost verify ∷ []
options_of (auth type) = http_auth type ∷ []
options_of (credentials login pass) = username login ∷ password pass ∷ []
options_of (timeout msec) = timeout_ms msec ∷ no_signal 1 ∷ []
options_of (header h) = []
options_of callback = write_function ∷ write_data ∷ []

abbrev pub headers_of : Setter → List Bytes
headers_of (header h) = h ∷ []
headers_of _ = []

abbrev pub apply_all : EasyCurl → List Setter → EasyClient → Result (Unit {0})
apply_all curl [] c = (inr tt, c)
apply_all curl (x ∷ xs) c = and_then (apply_all curl xs) (apply curl x c)

abbrev pub all_options : List Setter → List CurlOption
all_options [] = []
all_options (x ∷ xs) = options_of x ++ all_options xs

abbrev pub all_headers : List Setter → List Bytes
all_headers [] = []
all_headers (x ∷ xs) = headers_of x ++ all_headers xs

-- What a call adds to the client, if it returns.
abbrev Adds : {A : Type 0} → List CurlOption → List Bytes → EasyClient → Result A → Type 0
Adds os hs c (inl text, d) = Unit
Adds os hs c (inr a, d) = (d.options ≡ c.options ++ os) × (d.hdr_list ≡ c.hdr_list ++ hs)

set-Adds :
    (curl : EasyCurl) (text : Bytes) (o : CurlOption) (c : EasyClient)
    → Adds (o ∷ []) [] c (set curl text o c)
set-Adds curl text o c = elim (Bool-cases (curl.setopt c.options o)) [
  | inl taken ↦ rw taken (refl, sym (append-nil c.hdr_list))
  | inr refused ↦ rw refused tt
]

and_then-Adds :
    {A B : Type 0} (os ps : List CurlOption) (hs ks : List Bytes) (c : EasyClient)
    (f : EasyClient → Result B) (r : Result A)
    → Adds os hs c r
    → ((d : EasyClient) → Adds ps ks d (f d))
    → Adds (os ++ ps) (hs ++ ks) c (and_then f r)
and_then-Adds os ps hs ks c f (inl text, d) first second = tt
and_then-Adds {B = B} os ps hs ks c f (inr a, d) first second = widen (f d) (second d)
  where
    widen : (r : Result B) → Adds ps ks d r → Adds (os ++ ps) (hs ++ ks) c r
    widen (inl text, e) added = tt
    widen (inr b, e) added = (
      added.0 ∙ ap (λ x. x ++ ps) first.0 ∙ append_assoc c.options os ps,
      added.1 ∙ ap (λ x. x ++ ks) first.1 ∙ append_assoc c.hdr_list hs ks,
    )

set_both-Adds :
    (curl : EasyCurl) (text : Bytes) (o p : CurlOption) (c : EasyClient)
    → Adds (o ∷ p ∷ []) [] c (set_both curl text o p c)
set_both-Adds curl text o p c =
    and_then-Adds (o ∷ []) (p ∷ []) [] [] c (set curl text p) (set curl text o c)
      (set-Adds curl text o c) (set-Adds curl text p)

apply-Adds :
    (curl : EasyCurl) (x : Setter) (c : EasyClient)
    → Adds (options_of x) (headers_of x) c (apply curl x c)
unfolding set_ssl_verification set_auth_type set_auth_data set_timeout set_header set_write_callback
apply-Adds curl (ssl onoff) c = set_both-Adds curl _ _ _ c
apply-Adds curl (auth type) c = set-Adds curl _ _ c
apply-Adds curl (credentials login pass) c = set_both-Adds curl _ _ _ c
apply-Adds curl (timeout msec) c = set_both-Adds curl _ _ _ c
apply-Adds curl (header h) c = elim (Bool-cases (curl.slist_append c.hdr_list h)) [
  | inl appended ↦ rw appended (sym (append-nil c.options), refl)
  | inr refused ↦ rw refused tt
]
apply-Adds curl callback c = set_both-Adds curl _ _ _ c

apply_all-Adds :
    (curl : EasyCurl) (xs : List Setter) (c : EasyClient)
    → Adds (all_options xs) (all_headers xs) c (apply_all curl xs c)
apply_all-Adds curl [] c = (sym (append-nil c.options), sym (append-nil c.hdr_list))
apply_all-Adds curl (x ∷ xs) c =
    and_then-Adds (options_of x) (all_options xs) (headers_of x) (all_headers xs) c
      (apply_all curl xs) (apply curl x c) (apply-Adds curl x c) (apply_all-Adds curl xs)

-- The option for the headers, if there are any.
abbrev pub header_option : List Bytes → List CurlOption
header_option [] = []
header_option (h ∷ hs) = http_header (h ∷ hs) ∷ []

set_list-Adds :
    (curl : EasyCurl) (hs : List Bytes) (c : EasyClient)
    → Adds (header_option hs) [] c (set_list curl hs c)
set_list-Adds curl [] c = (sym (append-nil c.options), sym (append-nil c.hdr_list))
set_list-Adds curl (h ∷ hs) c = set-Adds curl _ _ c

-- How `perform` ends where it returns: the request went out with all options and was judged by them.
abbrev Performs : EasyCurl → List CurlOption → EasyClient → Result Bool → Type 0
Performs curl os c (inl text, d) = Unit
Performs curl os c (inr b, d) = (d.options ≡ c.options ++ os) × (b ≡ curl.perform (c.options ++ os))

abbrev request_options : Bytes → List Bytes → List CurlOption
request_options u hs = ((url u ∷ []) ++ header_option hs) ++ (error_buffer ∷ [])

abbrev prepared : EasyCurl → Bytes → EasyClient → Result (Unit {0})
prepared curl u c =
    and_then (set curl (codes "error buffer initializing error") error_buffer)
      (and_then (set_list curl c.hdr_list) (set curl (codes "URL processing error") (url u) c))

prepared-Adds :
    (curl : EasyCurl) (u : Bytes) (c : EasyClient)
    → Adds (request_options u c.hdr_list) [] c (prepared curl u c)
prepared-Adds curl u c =
    and_then-Adds ((url u ∷ []) ++ header_option c.hdr_list) (error_buffer ∷ []) [] [] c
      (set curl _ error_buffer) _
      (and_then-Adds (url u ∷ []) (header_option c.hdr_list) [] [] c (set_list curl c.hdr_list) _
        (set-Adds curl _ (url u) c) (set_list-Adds curl c.hdr_list))
      (set-Adds curl _ error_buffer)

performed-Performs :
    (curl : EasyCurl) (os : List CurlOption) (c : EasyClient) (r : Result (Unit {0}))
    → Adds os [] c r
    → Performs curl os c (and_then (performed curl) r)
performed-Performs curl os c (inl text, d) added = tt
performed-Performs curl os c (inr a, d) added = (added.0, ap curl.perform added.0)

perform-Performs :
    (curl : EasyCurl) (u : Bytes) (c : EasyClient)
    → Performs curl (request_options u c.hdr_list) c (perform curl u c)
unfolding perform
perform-Performs curl u c =
    performed-Performs curl (request_options u c.hdr_list) c (prepared curl u c)
      (prepared-Adds curl u c)

-- What a new client sends once setters and `perform` have returned: the transfer is judged by all
-- options of the setters, in their order, then the URL, all their headers in one list if there are
-- any, and the error buffer.
perform-request :
    (curl : EasyCurl) (xs : List Setter) (u : Bytes) (c d e : EasyClient) (b : Bool)
    → c.options ≡ []
    → c.hdr_list ≡ []
    → apply_all curl xs c ≡ (inr tt, d)
    → perform curl u d ≡ (inr b, e)
    → b
      ≡ curl.perform (
          all_options xs
          ++ (((url u ∷ []) ++ header_option (all_headers xs)) ++ (error_buffer ∷ [])))
perform-request curl xs u c d e b no_options no_headers applied performs =
    let added =
      subst (λ r. Adds (all_options xs) (all_headers xs) c r) applied (apply_all-Adds curl xs c) in
    let sent =
      subst (λ r. Performs curl (request_options u d.hdr_list) d r) performs
        (perform-Performs curl u d) in
    let headers : d.hdr_list ≡ all_headers xs =
      added.1 ∙ ap (λ hs. hs ++ all_headers xs) no_headers in
    let options : d.options ≡ all_options xs =
      added.0 ∙ ap (λ os. os ++ all_options xs) no_options in
    sent.1
    ∙ ap (λ os. curl.perform (os ++ request_options u d.hdr_list)) options
    ∙ ap (λ hs. curl.perform (all_options xs ++ request_options u hs)) headers
