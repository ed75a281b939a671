-- ===== src/HttpClient/Failures.antt =====
-- What `AsyncHttpClient::make_request` sets on the easy handle, and what it leaves behind where it
-- fails.
use mathlib.Core.List.{append_assoc, append-nil}
use yeti_lnp_resolver.Base.{
  ◌≡◌, refl, ap, ◌∙◌, ◌⊎◌, inl, inr, Bool, true, false, Option, none, some, List, [], ◌∷◌, ◌++◌,
  Bytes, Bool-cases,
}
use yeti_lnp_resolver.Types.{HttpRequest}
use yeti_lnp_resolver.HttpClient.Setup.{
  CurlOption, url, username, password, ssl_verifypeer, ssl_verifyhost, timeout_ms, no_signal,
  http_auth, http_header, write_function, write_data, private_data, error_buffer, Curl, Setup,
  ◌>>=◌, set, set_both, set_url, set_ssl, set_credentials, append_headers, set_list, setup,
}

abbrev pub url_options : Option Bytes → List CurlOption
url_options none = []
url_options (some u) = url u ∷ []

abbrev pub ssl_options : Bool → List CurlOption
ssl_options true = ssl_verifypeer 2 ∷ ssl_verifyhost 2 ∷ []
ssl_options false = ssl_verifypeer 0 ∷ ssl_verifyhost 0 ∷ []

abbrev pub credentials_options : Option Bytes → Option Bytes → List CurlOption
credentials_options (some login) (some pass) = username login ∷ password pass ∷ []
credentials_options _ _ = []

abbrev pub header_options : List Bytes → List CurlOption
header_options [] = []
header_options (h ∷ hs) = http_header (h ∷ hs) ∷ []

-- The options that a request stands for, in their order.
abbrev pub options_of : HttpRequest → List CurlOption
options_of r =
    url_options r.url
    ++ (ssl_options r.verify_ssl
        ++ (http_auth r.auth_type
            ∷ (credentials_options r.login r.pass
                ++ (timeout_ms r.timeout_ms
                    ∷ no_signal 1
                    ∷ (header_options r.headers
                        ++ (write_function ∷ write_data ∷ private_data ∷ error_buffer ∷ []))))))

bind-inr :
    {A : Type 0} (x : Bytes ⊎ A) (f : A → Setup) (out : List CurlOption)
    → (x >>= f) ≡ inr out
    → (a : A) × (x ≡ inr a) × (f a ≡ inr out)
bind-inr (inl text) f out e = cc
bind-inr (inr a) f out e = (a, refl, e)

set-inr :
    (curl : Curl) (text : Bytes) (o : CurlOption) (os out : List CurlOption)
    → set curl text o os ≡ inr out
    → out ≡ os ++ (o ∷ [])
set-inr curl text o os out e = elim (Bool-cases (curl.setopt os o)) [
  | inl taken ↦ cc (rw taken at e)
  | inr not_taken ↦ cc (rw not_taken at e)
]

set_both-inr :
    (curl : Curl) (text : Bytes) (o p : CurlOption) (os out : List CurlOption)
    → set_both curl text o p os ≡ inr out
    → out ≡ os ++ (o ∷ p ∷ [])
set_both-inr curl text o p os out e =
    let (mid, first, second) = bind-inr (set curl text o os) (set curl text p) out e in
    set-inr curl text p mid out second
    ∙ ap (λ l. l ++ (p ∷ [])) (set-inr curl text o os mid first)
    ∙ append_assoc os (o ∷ []) (p ∷ [])

set_url-inr :
    (curl : Curl) (u : Option Bytes) (out : List CurlOption)
    → set_url curl u [] ≡ inr out
    → out ≡ url_options u
set_url-inr curl none out e = cc
set_url-inr curl (some u) out e = set-inr curl _ (url u) [] out e

set_ssl-inr :
    (curl : Curl) (b : Bool) (os out : List CurlOption)
    → set_ssl curl b os ≡ inr out
    → out ≡ os ++ ssl_options b
set_ssl-inr curl true os out e = set_both-inr curl _ _ _ os out e
set_ssl-inr curl false os out e = set_both-inr curl _ _ _ os out e

set_credentials-inr :
    (curl : Curl) (login pass : Option Bytes) (os out : List CurlOption)
    → set_credentials curl login pass os ≡ inr out
    → out ≡ os ++ credentials_options login pass
set_credentials-inr curl none pass os out e = cc (append-nil os)
set_credentials-inr curl (some l) none os out e = cc (append-nil os)
set_credentials-inr curl (some l) (some p) os out e = set_both-inr curl _ _ _ os out e

append_headers-inr :
    (curl : Curl) (hs list out : List Bytes)
    → append_headers curl hs list ≡ inr out
    → out ≡ list ++ hs
unfolding append_headers
append_headers-inr curl [] list out e = cc (append-nil list)
append_headers-inr curl (h ∷ hs) list out e = elim (Bool-cases (curl.slist_append list h)) [
  | inl appended ↦
      append_headers-inr curl hs (list ++ (h ∷ [])) out (rw appended at e)
      ∙ append_assoc list (h ∷ []) hs
  | inr not_appended ↦ cc (rw not_appended at e)
]

set_list-inr :
    (curl : Curl) (os : List CurlOption) (hs : List Bytes) (out : List CurlOption)
    → set_list curl os hs ≡ inr out
    → out ≡ os ++ header_options hs
set_list-inr curl os [] out e = cc (append-nil os)
set_list-inr curl os (h ∷ hs) out e = set-inr curl _ _ os out e

set_headers-inr :
    (curl : Curl) (hs : List Bytes) (os out : List CurlOption)
    → (append_headers curl hs [] >>= set_list curl os) ≡ inr out
    → out ≡ os ++ header_options hs
set_headers-inr curl hs os out e =
    let (list, appended, listed) = bind-inr (append_headers curl hs []) (set_list curl os) out e in
    set_list-inr curl os list out listed
    ∙ ap (λ l. os ++ header_options l) (append_headers-inr curl hs [] list appended)

-- A request that libcurl does not refuse has all its options set on the easy handle, each once and
-- in order: its URL if it has one, both checks of the certificate or neither, the authorization,
-- the credentials if it has both, the timeout, its headers if it has any, and the client's own
-- callback and pointers.
setup-options_of :
    (curl : Curl) (r : HttpRequest) (os : List CurlOption)
    → setup curl r ≡ inr os
    → os ≡ options_of r
unfolding setup
setup-options_of curl r os e =
    let (o8, e8, f8) = bind-inr _ _ os e in
    let (o7, e7, f7) = bind-inr _ _ o8 e8 in
    let (o6, e6, f6) = bind-inr _ _ o7 e7 in
    let (o5, e5, f5) = bind-inr _ _ o6 e6 in
    let (o4, e4, f4) = bind-inr _ _ o5 e5 in
    let (o3, e3, f3) = bind-inr _ _ o4 e4 in
    let (o2, e2, f2) = bind-inr _ _ o3 e3 in
    let (o1, e1, f1) = bind-inr _ _ o2 e2 in
    let g1 = set_url-inr curl r.url o1 e1 in
    let g2 = set_ssl-inr curl r.verify_ssl o1 o2 f1 in
    let g3 = set-inr curl _ _ o2 o3 f2 in
    let g4 = set_credentials-inr curl r.login r.pass o3 o4 f3 in
    let g5 = set_both-inr curl _ _ _ o4 o5 f4 in
    let g6 = set_headers-inr curl r.headers o5 o6 f5 in
    let g7 = set_both-inr curl _ _ _ o6 o7 f6 in
    let g8 = set-inr curl _ _ o7 o8 f7 in
    let g9 = set-inr curl _ _ o8 os f8 in
    rw (g9, g8, g7, g6, g5, g4, g3, g2, g1) (simp append_assoc)
