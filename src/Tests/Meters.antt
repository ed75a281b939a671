-- ===== src/Tests/Meters.antt =====
-- The counters of a driver over two requests, of which the second still waits.
use yeti_lnp_resolver.Base.{
  ◌≡◌, refl, ◌+◌, true, false, Option, none, some, List, [], ◌∷◌, pos, eq_ℤ,
}
use yeti_lnp_resolver.Base.Assoc.{lookup, emplace, erase}
use yeti_lnp_resolver.Types.{new_request}
use yeti_lnp_resolver.Resolver.Request.{parse}
use yeti_lnp_resolver.Resolver.Reply.{reply_of, provisional_reply, tagged_reply}
use yeti_lnp_resolver.Resolver.State.{
  Resolver, Driver, accepted, configure, load_rows, on_data_received, on_http_response_received,
  on_parsed, resolve, resolve_with, run_action, after_make_request, make_http_request, answer,
  respond, parse_response, parse_response_with, parse_ended, handle_request_is_done, send_reply,
}
use yeti_lnp_resolver.Resolver.History.{initial}
use yeti_lnp_resolver.Statistics.{Exporter, new_exporter, start}
use yeti_lnp_resolver.Statistics.Totals.{value}
use yeti_lnp_resolver.Statistics.Metering.{labels_of, init_rows, meter}
use yeti_lnp_resolver.Statistics.Ledger.{waits}
use yeti_lnp_resolver.Statistics.Conservation.{
  Traffic, asks, replies, handle_all, AllRegular, handle_all-counters,
}
use yeti_lnp_resolver.Tests.Handlers.{local, remote, to_remote, reply}

abbrev two_rows : List (Option Driver)
two_rows = some local ∷ none ∷ some remote ∷ []

abbrev traffic : List Traffic
traffic = asks 5 accepted to_remote ∷ replies 9 reply ∷ asks 12 accepted to_remote ∷ []

abbrev first : Resolver
first = (configure (some two_rows) initial).0

abbrev last : Resolver
last = handle_all traffic first

abbrev exported : Exporter
exported = meter (load_rows two_rows []) last.effects (init_rows two_rows (start true new_exporter))

unused : new_exporter.is_undefined ≡ false
unfolding new_exporter
unused = refl

remote_is_there : lookup eq_ℤ (pos 2) (load_rows two_rows []) ≡ some remote
unfolding lookup load_rows emplace
remote_is_there = refl

traffic-AllRegular : AllRegular traffic first
unfolding initial configure load_rows emplace lookup new_request parse on_data_received on_parsed
    resolve resolve_with run_action after_make_request make_http_request answer
    on_http_response_received respond erase parse_response parse_response_with parse_ended
    handle_request_is_done send_reply reply_of provisional_reply tagged_reply
traffic-AllRegular = ((λ h. refl, tt), (tt, ((λ h. refl, tt), tt)))

handle_all-counters_example :
    (value (labels_of remote) exported.requests_count
      ≡ value (labels_of remote) exported.requests_failed
        + value (labels_of remote) exported.requests_finished
        + waits (pos 2) last.waiting_requests)
    × (exported.is_undefined ≡ false)
handle_all-counters_example =
    handle_all-counters two_rows traffic new_exporter (pos 2) remote unused remote_is_there
      traffic-AllRegular
