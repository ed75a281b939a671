-- ===== src/Drivers/SipClient/Creation.antt =====
-- How the first call of `getInstance` ends.
use yeti_lnp_resolver.Base.{◌≡◌, refl, ℕ, Bool, true, false, Option, Bytes, codes, if◌then◌else◌}
use yeti_lnp_resolver.Threads.{Thread, start}
use yeti_lnp_resolver.Drivers.SipClient.{SipLibrary, initialize, ◌and_then◌, check}
use yeti_lnp_resolver.Drivers.SipClient.Instance.{returns}
use yeti_lnp_resolver.Drivers.SipClient.Life.{
  Resource, dns_client, sip_stack, session_socket, Sip, new_sip, allocate, attempt, Created, create,
}

abbrev pub with_client : Sip
with_client = allocate dns_client new_sip

abbrev pub with_stack : Sip
with_stack = allocate sip_stack with_client

abbrev pub with_socket : Sip
with_socket = allocate session_socket with_stack

-- What holds of each of the four states holds where the initialization ends.
module _ (P : Sip → Type 0) where
  attempt-keeps :
      (b : Bool) (what : Bytes) (o : Option Resource) (rest : Sip → Created) (s : Sip)
      → P s
      → P (attempt true what o rest s).1.1
      → P (attempt b what o rest s).1.1
  attempt-keeps false what o rest s before after = before
  attempt-keeps true what o rest s before after = after

  pub create-keeps :
      (l : SipLibrary) (b : Bool)
      → P new_sip
      → P with_client
      → P with_stack
      → P with_socket
      → P (create l b new_sip).1.1
  unfolding create
  create-keeps l b new client stack socket = attempt-keeps l.libre_init _ _ _ _ new (
      attempt-keeps l.dns_srv_get _ _ _ _ new (
        attempt-keeps l.dnsc_alloc _ _ _ _ new (
          attempt-keeps l.sip_alloc _ _ _ _ client (
            attempt-keeps l.net_default_source_addr_get _ _ _ _ stack (
              attempt-keeps l.sip_transp_add _ _ _ _ stack
                (attempt-keeps l.sipsess_listen _ _ _ _ stack socket))))))

abbrev pub number : Bool → ℕ
number b = if b then 1 else 0

-- An object whose thread has ended or never was, one whose thread runs, and one whose thread could not
-- be created.
abbrev pub IsIdle : Thread → Type 0
IsIdle t = (t.stopped ≡ true) × (t.running ≡ 0)

abbrev pub IsRunning : Thread → Type 0
IsRunning t = (t.stopped ≡ false) × (t.is_td_set ≡ true) × (t.running ≡ 1)

abbrev pub IsLost : Thread → Type 0
IsLost t = (t.stopped ≡ false) × (t.is_td_set ≡ false) × (t.running ≡ 0)

-- By whether the calls of the initialization succeeded, and whether the thread was created.
abbrev pub IsLeft : Bool → Bool → Thread → Type 0
IsLeft false b t = IsIdle t
IsLeft true true t = IsRunning t
IsLeft true false t = IsLost t

-- What `create` returns, and the thread that it leaves, in terms of the calls alone.
abbrev pub CreatesAs : SipLibrary → Bool → Type 0
CreatesAs l b =
    let w = create l b new_sip in
    (w.0 ≡ initialize l and_then check b (codes "thread could not be started"))
    × IsLeft (returns (initialize l)) b w.1.0

pub create-CreatesAs : (l : SipLibrary) (b : Bool) → CreatesAs l b
unfolding create initialize start
create-CreatesAs l b =
    of_calls l.libre_init l.dns_srv_get l.dnsc_alloc l.sip_alloc l.net_default_source_addr_get
      l.sip_transp_add l.sipsess_listen b
  where
    of_calls :
        (i n d a g t s b : Bool)
        → CreatesAs
            (record {
              libre_init = i;
              dns_srv_get = n;
              dnsc_alloc = d;
              sip_alloc = a;
              net_default_source_addr_get = g;
              sip_transp_add = t;
              sipsess_listen = s;
            })
            b
    of_calls false n d a g t s b = (refl, (refl, refl))
    of_calls true false d a g t s b = (refl, (refl, refl))
    of_calls true true false a g t s b = (refl, (refl, refl))
    of_calls true true true false g t s b = (refl, (refl, refl))
    of_calls true true true true false t s b = (refl, (refl, refl))
    of_calls true true true true true false s b = (refl, (refl, refl))
    of_calls true true true true true true false b = (refl, (refl, refl))
    of_calls true true true true true true true false = (refl, (refl, refl, refl))
    of_calls true true true true true true true true = (refl, (refl, refl, refl))
