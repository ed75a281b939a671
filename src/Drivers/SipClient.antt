-- ===== src/Drivers/SipClient.antt =====
-- `CSipClient` of src/drivers/modules/SipClient.cpp: its single instance, and the wait for a reply. Which
-- calls of the SIP library (re) succeed is an argument.
pub mod Instance
pub mod Life
pub mod Creation
pub mod Holding
pub mod Closing
use yeti_lnp_resolver.Base.{
  ℕ, zero, suc, Bool, true, false, Option, none, some, List, [], ◌∷◌, Bytes, codes, ◌⊎◌, inl, inr,
  if◌then◌else◌,
}
use yeti_lnp_resolver.Threads.{Wakeup, wait_for_to}

-- Whether each call of the initialization returns 0, in their order.
pub record SipLibrary : Type 0 where
  pub libre_init : Bool
  pub dns_srv_get : Bool
  pub dnsc_alloc : Bool
  pub sip_alloc : Bool
  pub net_default_source_addr_get : Bool
  pub sip_transp_add : Bool
  pub sipsess_listen : Bool

-- `is_started` is set where the library's main loop runs. `none` is a pointer that was never set.
pub record SipClient : Type 0 where
  pub user_agent : Bytes
  pub timeout : ℕ
  pub contact_field : Option Bytes
  pub from_name : Option Bytes
  pub from_uri : Option Bytes
  pub is_started : Bool

abbrev pub default_timeout : ℕ
default_timeout = 4000

abbrev pub user_agent_or : Option Bytes → Bytes
user_agent_or none = codes "Yeti SIP client"
user_agent_or (some agent) = agent

abbrev pub new_instance : Option Bytes → SipClient
new_instance agent = record {
  user_agent = user_agent_or agent;
  timeout = default_timeout;
  contact_field = none;
  from_name = none;
  from_uri = none;
  is_started = false;
}

-- An exception's text where a call fails.
abbrev pub check : Bool → Bytes → Bytes ⊎ Unit {0}
check true what = inr tt
check false what = inl what

infixl 20 ◌and_then◌
abbrev pub ◌and_then◌ : Bytes ⊎ Unit {0} → Bytes ⊎ Unit {0} → Bytes ⊎ Unit {0}
inl what and_then y = inl what
inr u and_then y = y

-- From `libre_init` to `sipsess_listen`.
unfoldable pub initialize : SipLibrary → Bytes ⊎ Unit {0}
initialize l =
    check l.libre_init (codes "internal initialization error")
    and_then check l.dns_srv_get (codes "unable to get DNS servers")
    and_then check l.dnsc_alloc (codes "unable to create DNS client")
    and_then check l.sip_alloc (codes "unable to create SIP stack")
    and_then check l.net_default_source_addr_get (codes "unable to get default local address")
    and_then check l.sip_transp_add (codes "unable to add supported SIP transport")
    and_then check l.sipsess_listen (codes "unable to create SIP session socket")

abbrev pub initialized : SipClient → Bytes ⊎ Unit {0} → (Bytes ⊎ Unit {0}) × Option SipClient
initialized c (inl what) = (inl what, some c)
initialized c (inr u) = (inr u, some (record c { is_started = true }))

-- `getInstance`: the instance is stored before it is initialized. The Bool is whether the thread of the
-- main loop is created.
unfoldable pub get_instance :
    SipLibrary → Bool → Option Bytes → Option SipClient → (Bytes ⊎ Unit {0}) × Option SipClient
unfolding initialize
get_instance l is_created agent (some c) = (inr tt, some c)
get_instance l is_created agent none =
    initialized (new_instance agent)
      (initialize l and_then check is_created (codes "thread could not be started"))

unfoldable pub set_contact_data : Option Bytes → SipClient → SipClient
set_contact_data none c = c
set_contact_data (some contact) c = record c { contact_field = some contact }

unfoldable pub set_from_data : Option Bytes → Option Bytes → SipClient → SipClient
set_from_data (some name) (some uri) c = record c { from_name = some name; from_uri = some uri }
set_from_data _ _ c = c

unfoldable pub set_timeout : ℕ → SipClient → SipClient
set_timeout zero c = record c { timeout = default_timeout }
set_timeout (suc n) c = record c { timeout = suc n }

-- How `perform` ended, or that it threw.
pub data Performed : Type 0 where
  reply_ok reply_fail : Performed
  threw : Bytes → Performed

abbrev pub performed : Option Bool → Option Performed
performed none = none
performed (some true) = some reply_ok
performed (some false) = some reply_fail

-- `perform`: whether there is a URI, whether the session is connected, and the waits for the reply's
-- flag, which is not set at first; `none` while it waits.
unfoldable pub perform : Bool → Bool → List Wakeup → Option Performed
unfolding wait_for_to
perform false is_connected ws = some (threw (codes "not specified SIP request URI"))
perform true false ws = some (threw (codes "unable to perform SIP request"))
perform true true ws = performed (wait_for_to false ws)
