-- ===== src/Drivers/Sip/Laws.antt =====
-- What the SIP driver makes of a redirect.
use mathlib.Core.List.{append-nil}
use yeti_lnp_resolver.Base.{
  ◌≡◌, ◌≢◌, refl, true, false, ◌||◌, Option, none, some, List, [], ◌∷◌, ◌++◌, Bytes, codes, arith,
  ◌==◌, Lacks, ◌⊎◌, inl, inr, All, c_str, ◌↔◌, Bool-cases,
}
use yeti_lnp_resolver.Base.Streams.{split, split-append, split-Lacks}
use yeti_lnp_resolver.Types.{ResolverRequest, SResult, Exception}
use yeti_lnp_resolver.Resolver.State.{finish}
use yeti_lnp_resolver.Drivers.Sip.{
  SipCfg, SipMsg, SipEvent, connect_failed, timed_out, closed, perform, has_semicolon, rn_of,
  find_rn, parse, resolve, dst_uri, finish_parsed, finish_performed, read_contact, empty_reply,
}

has_semicolon-Lacks : (s : Bytes) → Lacks b';' s → has_semicolon s ≡ false
has_semicolon-Lacks [] h = refl
has_semicolon-Lacks (c ∷ cs) h = rw (h.0, has_semicolon-Lacks cs h.1)

has_semicolon-append : (s rest : Bytes) → has_semicolon (s ++ (b';' ∷ rest)) ≡ true
has_semicolon-append [] rest = refl
has_semicolon-append (c ∷ cs) rest = ground (arith, has_semicolon-append cs rest)

-- A Contact user without parameters is taken whole as the routing number.
pub parse_plain :
    (contact : Bytes) (r : ResolverRequest)
    → Lacks b';' contact
    → parse contact r ≡ inr (record r.result { local_routing_number = contact; raw_data = contact })
unfolding parse
parse_plain contact r h = rw (has_semicolon-Lacks contact h)

-- An element is passed over if it does not split by '=' into "rn" and a value.
abbrev pub IsOther : Bytes → Type 0
IsOther element = Lacks b';' element × (rn_of (split b'=' element) ≡ none)

abbrev rn_element : Bytes → Bytes
rn_element value = codes "rn=" ++ value

rn_of-rn_element :
    (value : Bytes)
    → Lacks b'=' value
    → value ≢ []
    → rn_of (split b'=' (rn_element value)) ≡ some value
rn_of-rn_element value h ne =
    rw (split-append b'=' (codes "rn") value (refl, (refl, tt)), split-Lacks b'=' value h ne)

-- Elements before the routing number, each with its semicolon.
abbrev pub prefixed : List Bytes → Bytes → Bytes
prefixed [] s = s
prefixed (e ∷ es) s = e ++ (b';' ∷ prefixed es s)

-- Nothing, or a semicolon and more elements.
pub data Tail : Bytes → Type 0 where
  none_left : {tail : Bytes} → tail ≡ [] → Tail tail
  more : {tail : Bytes} (rest : Bytes) → tail ≡ b';' ∷ rest → Tail tail

find_rn-Tail :
    (value tail : Bytes)
    → Lacks b';' value
    → Lacks b'=' value
    → value ≢ []
    → Tail tail
    → find_rn (split b';' (rn_element value ++ tail)) ≡ some value
unfolding find_rn
find_rn-Tail value tail ls le ne (none_left e) = rw (
  e,
  append-nil (rn_element value),
  split-Lacks b';' (rn_element value) (refl, (refl, (refl, ls))) (λ x. cc),
  rn_of-rn_element value le ne,
)
find_rn-Tail value tail ls le ne (more rest e) = rw (
  e,
  split-append b';' (rn_element value) rest (refl, (refl, (refl, ls))),
  rn_of-rn_element value le ne,
)

find_rn-prefixed :
    (before : List Bytes) (s value : Bytes)
    → All IsOther before
    → find_rn (split b';' s) ≡ some value
    → find_rn (split b';' (prefixed before s)) ≡ some value
unfolding find_rn
find_rn-prefixed [] s value h e = e
find_rn-prefixed (x ∷ before) s value h e =
    rw (split-append b';' x (prefixed before s) h.0.0, h.0.1)
      (find_rn-prefixed before s value h.1 e)

has_semicolon-Tail : (s tail : Bytes) → Tail tail → tail ≢ [] → has_semicolon (s ++ tail) ≡ true
has_semicolon-Tail s tail (none_left e) ne = absurd (ne e)
has_semicolon-Tail s tail (more rest e) ne = rw e (has_semicolon-append s rest)

-- Of a Contact user with parameters, `rn=<number>` gives the routing number behind any elements
-- that are no such parameter, if the number is not empty and holds neither ';' nor '='; the whole
-- user is the raw data.
parse_rn :
    (before : List Bytes) (value tail : Bytes) (r : ResolverRequest)
    → All IsOther before
    → Lacks b';' value
    → Lacks b'=' value
    → value ≢ []
    → Tail tail
    → (before ≢ []) ⊎ (tail ≢ [])
    → let contact = prefixed before (codes "rn=" ++ (value ++ tail)) in
      parse contact r ≡ inr (record r.result { local_routing_number = value; raw_data = contact })
unfolding parse
parse_rn [] value tail r h ls le ne t (inl some_before) = absurd (some_before refl)
parse_rn [] value tail r h ls le ne t (inr some_tail) =
    rw (has_semicolon-Tail (rn_element value) tail t some_tail, find_rn-Tail value tail ls le ne t)
parse_rn (x ∷ before) value tail r h ls le ne t p = rw (
  has_semicolon-append x (prefixed before (rn_element value ++ tail)),
  find_rn-prefixed (x ∷ before) (rn_element value ++ tail) value h
      (find_rn-Tail value tail ls le ne t),
)

-- The SIP stack closed the session with a redirect whose Contact gives this result.
pub data Redirected (stack : Bytes → SipEvent) (c : SipCfg) (r : ResolverRequest) (result : SResult)
    : Type 0 where
  redirected :
      (msg : SipMsg) (user : Bytes)
      → stack (c_str (dst_uri c r)) ≡ closed (some msg)
      → (msg.scode ≡ 301) ⊎ (msg.scode ≡ 302)
      → msg.contact ≡ some (some user)
      → parse user r ≡ inr result
      → Redirected stack c r result

abbrev ClosedBy : ResolverRequest → SResult → SipEvent → Type 0
ClosedBy r result ev =
    (msg : SipMsg) × (user : Bytes) × (ev ≡ closed (some msg))
    × ((msg.scode ≡ 301) ⊎ (msg.scode ≡ 302))
    × (msg.contact ≡ some (some user))
    × (parse user r ≡ inr result)

finish_parsed-inv :
    (e : Exception ⊎ SResult) (result : SResult) → finish_parsed e ≡ finish result → e ≡ inr result
finish_parsed-inv (inl e) result h = cc
finish_parsed-inv (inr x) result h = cc

perform-inv :
    (r : ResolverRequest) (result : SResult) (ev : SipEvent)
    → finish_performed r (perform ev) ≡ finish result
    → ClosedBy r result ev
unfolding perform
perform-inv r result connect_failed h = cc
perform-inv r result timed_out h = cc
perform-inv r result (closed none) h = cc
perform-inv r result (closed (some msg)) h =
    elim (Bool-cases (msg.scode == 301 || msg.scode == 302)) [
      | inl redirect ↦ contact_inv msg.contact refl (rw redirect at h) (ground arith)
      | inr other_code ↦ ground arith
    ]
  where
    contact_inv :
        (contact : Option (Option Bytes))
        → msg.contact ≡ contact
        → finish_performed r
            (inr (read_contact (record empty_reply { status_code = msg.scode }) msg.contact))
          ≡ finish result
        → (msg.scode ≡ 301) ⊎ (msg.scode ≡ 302)
        → ClosedBy r result (closed (some msg))
    contact_inv none e k code = cc (rw e at k)
    contact_inv (some none) e k code = cc (rw e at k)
    contact_inv (some (some user)) e k code =
        (msg, user, refl, code, e, finish_parsed-inv (parse user r) result (rw e at k))

-- The SIP driver finishes with a result exactly if the SIP stack closed the session with a 301 or
-- 302 and a Contact whose user part decodes, and `parse` makes that result of the user part.
pub resolve-Redirected :
    (stack : Bytes → SipEvent) (c : SipCfg) (r : ResolverRequest) (result : SResult)
    → (resolve stack c r ≡ finish result) ↔ Redirected stack c r result
unfolding resolve
resolve-Redirected stack c r result = (
  λ h.
      let (msg, user, e, code, contact, p) = perform-inv r result (stack (c_str (dst_uri c r))) h in
      redirected msg user e code contact p,
  resolve_redirected,
)
  where
    resolve_redirected : Redirected stack c r result → resolve stack c r ≡ finish result
    resolve_redirected (redirected msg user e code contact p) = rw e (ground (arith, contact, p))
