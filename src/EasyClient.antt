-- ===== src/EasyClient.antt =====
-- `CHttpClient` of src/drivers/modules/HttpClient.cpp and HttpClient.h: the synchronous HTTP client. What
-- libcurl takes and returns is an argument.
pub mod Requests
use yeti_lnp_resolver.Base.{
  ℕ, Bool, true, false, Option, none, some, List, [], ◌∷◌, ◌++◌, Bytes, codes, ◌⊎◌, inl, inr,
  if◌then◌else◌,
}
use yeti_lnp_resolver.Types.{AuthType}
use yeti_lnp_resolver.HttpClient.Setup.{
  CurlOption, url, username, password, ssl_verifypeer, ssl_verifyhost, timeout_ms, no_signal,
  http_auth, http_header, write_function, write_data, error_buffer,
}

-- Whether an option is taken after those already set, whether a header is appended to those before it,
-- and whether the transfer with the options that are set succeeds.
pub record EasyCurl : Type 0 where
  pub setopt : List CurlOption → CurlOption → Bool
  pub slist_append : List Bytes → Bytes → Bool
  pub perform : List CurlOption → Bool

-- The options set on `mCtx` so far, and `mHdrList`.
pub record EasyClient : Type 0 where
  pub options : List CurlOption
  pub hdr_list : List Bytes

-- An exception's text, or the value returned, and the client.
abbrev pub Result : Type 0 → Type 0
Result A = (Bytes ⊎ A) × EasyClient

-- The constructor: whether the global environment and the handle are initialized, and `sInitialize`.
unfoldable pub construct : Bool → Bool → Bool → (Bytes ⊎ EasyClient) × Bool
construct false easy_init false = (inl (codes "global environment initializing error"), false)
construct global_init false initialize = (inl (codes "context creation error"), true)
construct global_init true initialize = (inr (record { options = []; hdr_list = [] }), true)

abbrev pub set : EasyCurl → Bytes → CurlOption → EasyClient → Result (Unit {0})
set curl text o c =
    if curl.setopt c.options o
    then (inr tt, record c { options = c.options ++ (o ∷ []) })
    else (inl text, c)

-- The second option is set only if the first was taken.
abbrev pub and_then : {A B : Type 0} → (EasyClient → Result B) → Result A → Result B
and_then f (inl text, c) = (inl text, c)
and_then f (inr a, c) = f c

abbrev pub set_both : EasyCurl → Bytes → CurlOption → CurlOption → EasyClient → Result (Unit {0})
set_both curl text o p c = and_then (set curl text p) (set curl text o c)

unfoldable pub set_ssl_verification : EasyCurl → Bool → EasyClient → Result (Unit {0})
set_ssl_verification curl onoff =
    let verify = if onoff then 2 else 0 in
    set_both curl (codes "SSL verification option error") (ssl_verifypeer verify)
      (ssl_verifyhost verify)

unfoldable pub set_auth_type : EasyCurl → AuthType → EasyClient → Result (Unit {0})
set_auth_type curl type = set curl (codes "authorization type handling error") (http_auth type)

unfoldable pub set_auth_data : EasyCurl → Bytes → Bytes → EasyClient → Result (Unit {0})
set_auth_data curl login pass =
    set_both curl (codes "authorization data error") (username login) (password pass)

unfoldable pub set_timeout : EasyCurl → ℕ → EasyClient → Result (Unit {0})
set_timeout curl timeout =
    set_both curl (codes "set up timeout value error") (timeout_ms timeout) (no_signal 1)

unfoldable pub set_header : EasyCurl → Bytes → EasyClient → Result (Unit {0})
set_header curl header c =
    if curl.slist_append c.hdr_list header
    then (inr tt, record c { hdr_list = c.hdr_list ++ (header ∷ []) })
    else (inl (codes "error appending header to request"), c)

unfoldable pub set_write_callback : EasyCurl → EasyClient → Result (Unit {0})
set_write_callback curl =
    set_both curl (codes "initializing write callback data error") write_function write_data

-- `mHdrList` is null while no header was set.
abbrev pub set_list : EasyCurl → List Bytes → EasyClient → Result (Unit {0})
set_list curl [] c = (inr tt, c)
set_list curl (h ∷ hs) c = set curl (codes "headers processing error") (http_header (h ∷ hs)) c

abbrev pub performed : EasyCurl → EasyClient → Result Bool
performed curl c = (inr (curl.perform c.options), c)

-- `perform`; true is `ECReqCode::OK`.
unfoldable pub perform : EasyCurl → Bytes → EasyClient → Result Bool
perform curl u c = and_then (performed curl) (
    and_then (set curl (codes "error buffer initializing error") error_buffer)
      (and_then (set_list curl c.hdr_list) (set curl (codes "URL processing error") (url u) c)))
