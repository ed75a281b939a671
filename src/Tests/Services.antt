-- ===== src/Tests/Services.antt =====
-- The timer, a deadline, a SIP request and the life of the SIP client.
use yeti_lnp_resolver.Base.{◌≡◌, refl, ◌+◌, ◌*◌, ◌<◌, ◌≤◌, true, false, some, [], ◌∷◌, ◌++◌, arith}
use yeti_lnp_resolver.Threads.{deadline, Wakeup}
use yeti_lnp_resolver.Threads.Laws.{was_set, deadline-exact}
use yeti_lnp_resolver.Drivers.SipClient.{perform}
use yeti_lnp_resolver.Drivers.SipClient.Instance.{if_set, perform-was_set}
use yeti_lnp_resolver.Base.Counting.{count}
use yeti_lnp_resolver.Drivers.SipClient.{SipLibrary}
use yeti_lnp_resolver.Drivers.SipClient.Life.{
  Sip, sip_stack, new_sip, create, request_ends, happen, destroy,
}
use yeti_lnp_resolver.Drivers.SipClient.Holding.{is_alloc, is_deref}
use yeti_lnp_resolver.Threads.{Thread, Stopped, ended}
use yeti_lnp_resolver.Base.{false}
use yeti_lnp_resolver.Drivers.SipClient.Closing.{life-released}

deadline-exact_example :
    ((deadline 100 900000 4200).tv_sec * 1000000000 + (deadline 100 900000 4200).tv_nsec
      ≡ 100 * 1000000000 + 900000 * 1000 + 4200 * 1000000)
    × ((deadline 100 900000 4200).tv_nsec < 1000000000)
deadline-exact_example = deadline-exact 100 900000 4200 (omega arith)

abbrev spurious : Wakeup
spurious = record { flag = false; is_failed = false }

abbrev timed_out : Wakeup
timed_out = record { flag = false; is_failed = true }

perform-was_set_example :
    perform true true ((spurious ∷ []) ++ (timed_out ∷ (spurious ∷ [])))
    ≡ some (if_set (was_set ((spurious ∷ []) ++ (timed_out ∷ []))))
perform-was_set_example = perform-was_set (spurious ∷ []) (spurious ∷ []) timed_out (refl, tt) refl

-- The socket of the sessions cannot be made.
abbrev library : SipLibrary
library = record {
  libre_init = true;
  dns_srv_get = true;
  dnsc_alloc = true;
  sip_alloc = true;
  net_default_source_addr_get = true;
  sip_transp_add = true;
  sipsess_listen = false;
}

life-released_example :
    (last : Thread × Sip) × (destroy
        (happen (request_ends true ∷ request_ends false ∷ []) (create library true new_sip).1)
      ≡ ended last)
    × (count (is_deref sip_stack) last.1.calls ≡ count (is_alloc sip_stack) last.1.calls)
    × (count (is_deref sip_stack) last.1.calls ≤ 1)
life-released_example =
    life-released sip_stack library (request_ends true ∷ request_ends false ∷ [])

abbrev all_well : SipLibrary
all_well = record library { sipsess_listen = true }

abbrev sip_last : Stopped Sip
sip_last = destroy (happen (request_ends false ∷ []) (create all_well true new_sip).1)
