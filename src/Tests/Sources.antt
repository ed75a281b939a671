-- ===== src/Tests/Sources.antt =====
-- A CSV file with two entries, and redirects with a routing number.
use yeti_lnp_resolver.Base.{◌≡◌, ◌↔◌, refl, false, some, [], ◌∷◌, Bytes, codes, pos}
use yeti_lnp_resolver.Base.Streams.{split}
use yeti_lnp_resolver.Types.{ResolverRequest, empty_result}
use yeti_lnp_resolver.Resolver.State.{finish}
use yeti_lnp_resolver.Drivers.Csv as Csv
use yeti_lnp_resolver.Drivers.Csv.Laws.{Entry, IsEntry, file_of, entry_result, resolve-file_of}
use yeti_lnp_resolver.Drivers.Sip as Sip
use yeti_lnp_resolver.Drivers.Sip.Laws.{IsOther, Redirected, resolve-Redirected}

abbrev request : ResolverRequest
request = record {
  id = 77;
  type = pos 0;
  db_id = pos 0;
  client_info = record { addr = (1, 2); addr_size = 16; recv_fd = pos 3 };
  number = codes "12";
  req_start = 0;
  is_done = false;
  result = empty_result;
}

abbrev entry : Entry
entry = record { number = codes "12"; tag = codes "t"; routing_number = codes "99" }

entry-IsEntry : IsEntry entry
entry-IsEntry = record {
  number_field = (λ e. cc, (refl, (refl, tt)), (refl, (refl, tt)));
  tag_field = (λ e. cc, (refl, tt), (refl, tt));
  routing_number_field = (λ e. cc, (refl, (refl, tt)), (refl, (refl, tt)));
  c_string = (refl, (refl, tt));
}

resolve-file_of_example :
    (hash : Csv.Hash) × (Csv.load_driver (some (some (file_of (entry ∷ [])))) ≡ Csv.ok hash)
    × (Csv.resolve hash request ≡ finish (entry_result request (some entry)))
resolve-file_of_example =
    resolve-file_of (entry ∷ []) request (entry-IsEntry, tt) (refl, (refl, tt))

npdi-IsOther : IsOther (codes "x")
unfolding split
npdi-IsOther = ((refl, tt), refl)

abbrev cfg : Sip.SipCfg
cfg = record { uniq_id = pos 4; host = codes "h"; port = 0; timeout = 100 }

abbrev stack : Bytes → Sip.SipEvent
stack uri = Sip.closed (some (record { scode = 302; contact = some (some (codes "x;rn=9")) }))

resolve-Redirected_example :
    (Sip.resolve stack cfg request
      ≡ finish
          (record request.result { local_routing_number = codes "9"; raw_data = codes "x;rn=9" }))
    ↔ Redirected stack cfg request
        (record request.result { local_routing_number = codes "9"; raw_data = codes "x;rn=9" })
resolve-Redirected_example =
    resolve-Redirected stack cfg request
      (record request.result { local_routing_number = codes "9"; raw_data = codes "x;rn=9" })
