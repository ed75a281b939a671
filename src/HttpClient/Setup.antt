-- ===== src/HttpClient/Setup.antt =====
-- The options that `AsyncHttpClient::make_request` sets on an easy handle, and the exceptions it
-- throws where libcurl refuses one.
use yeti_lnp_resolver.Base.{
  ℕ, Bool, Option, none, some, List, [], ◌∷◌, ◌++◌, Bytes, codes, ◌⊎◌, inl, inr, if◌then◌else◌,
}
use yeti_lnp_resolver.Types.{AuthType, HttpRequest}

-- `curl_easy_setopt`, with the option's value; the callback and the pointers to `ConnInfo` have none.
pub data CurlOption : Type 0 where
  url username password : Bytes → CurlOption
  ssl_verifypeer ssl_verifyhost timeout_ms no_signal : ℕ → CurlOption
  http_auth : AuthType → CurlOption
  http_header : List Bytes → CurlOption
  write_function write_data private_data error_buffer : CurlOption

-- libcurl during one call: the new handle, whether an option is taken after those already set,
-- whether a header is appended to those before it, and whether the handle is added to the multi.
pub record Curl : Type 0 where
  pub easy_init : Option ℕ
  pub setopt : List CurlOption → CurlOption → Bool
  pub slist_append : List Bytes → Bytes → Bool
  pub add_handle : Bool

-- The options set so far, or the exception's text.
abbrev pub Setup : Type 0
Setup = Bytes ⊎ List CurlOption

infixl 20 ◌>>=◌
abbrev pub ◌>>=◌ : {A : Type 0} → Bytes ⊎ A → (A → Setup) → Setup
inl text >>= f = inl text
inr a >>= f = f a

abbrev pub set : Curl → Bytes → CurlOption → List CurlOption → Setup
set curl text o os = if curl.setopt os o then inr (os ++ (o ∷ [])) else inl text

-- `a || b` of two options with one text.
abbrev pub set_both : Curl → Bytes → CurlOption → CurlOption → List CurlOption → Setup
set_both curl text o p os = set curl text o os >>= set curl text p

abbrev pub set_url : Curl → Option Bytes → List CurlOption → Setup
set_url curl none os = inr os
set_url curl (some u) os = set curl (codes "URL processing error") (url u) os

abbrev pub set_ssl : Curl → Bool → List CurlOption → Setup
set_ssl curl verify_ssl os =
    let verify = if verify_ssl then 2 else 0 in
    set_both curl (codes "SSL verification option error") (ssl_verifypeer verify)
      (ssl_verifyhost verify) os

abbrev pub set_credentials : Curl → Option Bytes → Option Bytes → List CurlOption → Setup
set_credentials curl (some login) (some pass) os =
    set_both curl (codes "authorization credentials processing error") (username login)
      (password pass) os
set_credentials curl _ _ os = inr os

unfoldable pub append_headers : Curl → List Bytes → List Bytes → Bytes ⊎ List Bytes
append_headers curl [] list = inr list
append_headers curl (h ∷ hs) list =
    if curl.slist_append list h
    then append_headers curl hs (list ++ (h ∷ []))
    else inl (codes "appending header to request error")

-- A list without headers is a null pointer, and no option is set.
abbrev pub set_list : Curl → List CurlOption → List Bytes → Setup
set_list curl os [] = inr os
set_list curl os (h ∷ hs) = set curl (codes "headers processing error") (http_header (h ∷ hs)) os

-- From the handle's creation to `curl_multi_add_handle`.
unfoldable pub setup : Curl → HttpRequest → Setup
unfolding append_headers
setup curl r =
    set_url curl r.url []
    >>= set_ssl curl r.verify_ssl
    >>= set curl (codes "authorization type processing error") (http_auth r.auth_type)
    >>= set_credentials curl r.login r.pass
    >>= set_both curl (codes "set up timeout value error") (timeout_ms r.timeout_ms) (no_signal 1)
    >>= (λ os. append_headers curl r.headers [] >>= set_list curl os)
    >>= set_both curl (codes "initializing write callback data error") write_function write_data
    >>= set curl (codes "private pointer initialization error") private_data
    >>= set curl (codes "error buffer initializing error") error_buffer
