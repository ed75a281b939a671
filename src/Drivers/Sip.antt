-- ===== src/Drivers/Sip.antt =====
-- src/drivers/SipDriver.cpp, and the parts of src/drivers/modules/SipClient.cpp that decide its
-- result. What the SIP stack (libre) did with the INVITE is an argument.
pub mod Laws
use yeti_lnp_resolver.Base.{
  ℕ, zero, suc, ◌≡◌, Bool, true, false, ◌&&◌, ◌||◌, Option, none, some, List, [], ◌∷◌, ◌++◌, Bytes,
  codes, ◌==◌, if◌then◌else◌, equal, ◌⊎◌, inl, inr, ℤ, pos, c_str, or_else,
}
use yeti_lnp_resolver.Base.Decimal.{to_string}
use yeti_lnp_resolver.Base.Streams.{split}
use yeti_lnp_resolver.Types.{ResolverRequest, SResult, Exception, driver_error}
use yeti_lnp_resolver.Resolver.State.{Action, finish, raise, Driver}

-- The members of `CSipDriverCfg` and `CDriverCfg` that the driver uses.
pub record SipCfg : Type 0 where
  pub uniq_id : ℤ
  pub host : Bytes
  pub port : ℕ
  pub timeout : ℕ

-- `mURIPrefix` and `mURISuffix`, as the constructor builds them.
unfoldable pub uri_prefix : Bytes
uri_prefix = codes "sip" ++ codes ":"

unfoldable pub uri_suffix : SipCfg → Bytes
uri_suffix c =
    codes "@" ++ (c_str c.host ++ (if c.port == 0 then [] else codes ":" ++ to_string c.port))

-- `dstUri`
unfoldable pub dst_uri : SipCfg → ResolverRequest → Bytes
unfolding uri_prefix uri_suffix
dst_uri c r = uri_prefix ++ (r.number ++ uri_suffix c)

-- A SIP reply: its status, and its Contact header, whose user part may fail to decode.
pub record SipMsg : Type 0 where
  pub scode : ℕ
  pub contact : Option (Option Bytes)

pub record ReplyData : Type 0 where
  pub processed : Bool
  pub status_code : ℕ
  pub raw_contact_data : Bytes

abbrev pub empty_reply : ReplyData
empty_reply = record { processed = false; status_code = 0; raw_contact_data = [] }

-- `replyHandler`, which `closeHandler` calls; `processed` is set where it returns true.
abbrev pub read_contact : ReplyData → Option (Option Bytes) → ReplyData
read_contact d none = d
read_contact d (some none) = d
read_contact d (some (some user)) = record d { raw_contact_data = user; processed = true }

unfoldable pub reply_handler : Option SipMsg → ReplyData → ReplyData
reply_handler none d = d
reply_handler (some msg) d =
    if msg.scode == 301 || msg.scode == 302
    then read_contact (record d { status_code = msg.scode }) msg.contact
    else d

-- What the stack does: `sipsess_connect` fails, nothing comes before the timeout, or the session
-- is closed with a message or none.
pub data SipEvent : Type 0 where
  connect_failed timed_out : SipEvent
  closed : Option SipMsg → SipEvent

-- `CSipClient::perform`: an exception, or the reply, whose `processed` is the result code `OK`.
unfoldable pub perform : SipEvent → Exception ⊎ ReplyData
unfolding reply_handler
perform connect_failed = inl (driver_error (codes "unable to perform SIP request"))
perform timed_out = inr empty_reply
perform (closed msg) = inr (reply_handler msg empty_reply)

abbrev pub has_semicolon : Bytes → Bool
has_semicolon [] = false
has_semicolon (c ∷ cs) = c == b';' || has_semicolon cs

-- `elm`: exactly two parts, of which the first is "rn".
abbrev pub rn_of : List Bytes → Option Bytes
rn_of (name ∷ value ∷ []) = if equal name (codes "rn") then some value else none
rn_of _ = none

-- The loop over the URI's elements, which stops at the first routing number.
unfoldable pub find_rn : List Bytes → Option Bytes
find_rn [] = none
find_rn (i ∷ is) = or_else (rn_of (split b'=' i)) (find_rn is)

-- "Contact user without 'rn' parameter", whose first letter is the Cyrillic one, in UTF-8.
abbrev pub no_rn : Bytes
no_rn = 208 ∷ 161 ∷ codes "ontact user without 'rn' parameter"

abbrev pub take_rn : Bytes → ResolverRequest → Option Bytes → Exception ⊎ SResult
take_rn contact r none = inl (driver_error no_rn)
take_rn contact r (some rn) =
    inr (record r.result { local_routing_number = rn; raw_data = contact })

-- `CSipDriver::parse`
unfoldable pub parse : Bytes → ResolverRequest → Exception ⊎ SResult
unfolding find_rn
parse contact r =
    if has_semicolon contact
    then take_rn contact r (find_rn (split b';' contact))
    else inr (record r.result { local_routing_number = contact; raw_data = contact })

abbrev pub finish_parsed : Exception ⊎ SResult → Action
finish_parsed (inl e) = raise e
finish_parsed (inr result) = finish result

abbrev pub finish_performed : ResolverRequest → Exception ⊎ ReplyData → Action
finish_performed r (inl e) = raise e
finish_performed r (inr reply) =
    if reply.processed
    then finish_parsed (parse reply.raw_contact_data r)
    else raise (driver_error (codes "no SIP response"))

-- `CSipDriver::resolve`; `stack` is the SIP stack's answer to an INVITE of a URI.
unfoldable pub resolve : (Bytes → SipEvent) → SipCfg → ResolverRequest → Action
unfolding perform dst_uri parse
resolve stack c r = finish_performed r (perform (stack (c_str (dst_uri c r))))

unfoldable pub sip_driver : (Bytes → SipEvent) → SipCfg → Driver
unfolding resolve parse
sip_driver stack c = record {
  unique_id = c.uniq_id;
  name = codes "SIP/301-302";
  driver_type = pos 0;
  resolve = resolve stack c;
  parse = parse;
}
