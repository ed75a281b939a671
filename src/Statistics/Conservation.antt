-- ===== src/Statistics/Conservation.antt =====
-- The resolver with its metrics: the exporter is started, the drivers are loaded, and datagrams and
-- HTTP responses follow.
use yeti_lnp_resolver.Base.{
  ℕ, ◌+◌, ◌≡◌, ◌≤◌, refl, sym, ◌∙◌, true, false, Option, some, List, [], ◌∷◌, ◌==◌, ==_iff, ℤ, eq_ℤ,
  eq_ℤ_iff, All, arith, read_u32,
}
use mathlib.Core.Path.{subst}
use yeti_lnp_resolver.Base.Assoc.{lookup, lookup-All}
use yeti_lnp_resolver.Types.{RecvData, ResolverRequest, new_request, HttpResponse}
use yeti_lnp_resolver.Resolver.Request.{parse}
use yeti_lnp_resolver.Resolver.State.{
  Resolver, Driver, HttpOutcome, on_data_received, on_http_response_received, configure, load_rows,
}
use yeti_lnp_resolver.Resolver.Answers.{IsFresh, DoesReturn}
use yeti_lnp_resolver.Resolver.Invariant.{
  IsValid, IsKeyed, on_data_received-IsValid, on_http_response_received-IsValid, configure-IsValid,
}
use yeti_lnp_resolver.Resolver.History.{initial, initial-IsValid}
use yeti_lnp_resolver.HttpClient.Asked.{asked_parsed, on_parsed-Grows}
use yeti_lnp_resolver.Statistics.{Exporter, start}
use yeti_lnp_resolver.Statistics.Totals.{value}
use yeti_lnp_resolver.Statistics.Metering.{labels_of, init_rows, meter}
use yeti_lnp_resolver.Statistics.Ledger.{counted, accounted, waits}
use yeti_lnp_resolver.Statistics.Balance.{
  IsKnown, on_parsed-Keeps, respond-Keeps, asked_parsed-IsKnown, grown-All, respond-All,
  parse_fresh,
}
use yeti_lnp_resolver.Statistics.Metrics.{meter-values}

-- A datagram, with the clock and the outcome of its transfer, or an HTTP response.
pub data Traffic : Type 0 where
  asks : ℕ → HttpOutcome → RecvData → Traffic
  replies : ℕ → HttpResponse → Traffic

abbrev pub handle : Traffic → Resolver → Resolver
handle (asks now http recv) s = on_data_received now http recv s
handle (replies now response) s = on_http_response_received now response s

abbrev pub handle_all : List Traffic → Resolver → Resolver
handle_all [] s = s
handle_all (x ∷ xs) s = handle_all xs (handle x s)

-- A datagram with a header has an id that no request waits under, and the client does not throw.
abbrev pub IsRegular : Traffic → Resolver → Type 0
IsRegular (asks now http recv) s =
    (6 ≤ recv.length → IsFresh (read_u32 recv.buffer 0) s) × DoesReturn http
IsRegular (replies now response) s = Unit

abbrev pub AllRegular : List Traffic → Resolver → Type 0
AllRegular [] s = Unit
AllRegular (x ∷ xs) s = IsRegular x s × AllRegular xs (handle x s)

-- Each request counted for the driver is settled or waits, and the drivers are as they were.
record IsBalanced (ds : List (ℤ × Driver)) (i : ℤ) (s : Resolver) : Type 0 where
  valid : IsValid s
  drivers : s.drivers ≡ ds
  known : All (IsKnown ds) s.waiting_requests
  even : counted i s ≡ accounted i s

keyed_driver :
    (s : Resolver)
    → IsValid s
    → (r : ResolverRequest) (d : Driver) → lookup eq_ℤ r.db_id s.drivers ≡ some d
    → d.unique_id ≡ r.db_id
keyed_driver s v r d found =
    sym (lookup-All eq_ℤ eq_ℤ_iff IsKeyed r.db_id d s.drivers v.drivers_keyed found)

module _ (ds : List (ℤ × Driver)) (i : ℤ) where
  asks-IsBalanced :
      (now : ℕ) (http : HttpOutcome) (recv : RecvData) (s : Resolver)
      → IsRegular (asks now http recv) s
      → IsBalanced ds i s
      → IsBalanced ds i (on_data_received now http recv s)
  unfolding on_data_received
  asks-IsBalanced now http recv s regular b =
      let r = new_request recv.client_info now in
      let p = parse recv r in
      let grows = on_parsed-Grows now http s p in
      let keeps =
        on_parsed-Keeps i now http s p.0 p.1 (keyed_driver s b.valid p.0)
          (λ e.
            let header = parse_fresh recv r e in
            subst (λ id. IsFresh id s) (sym header.1) (regular.0 header.0))
          regular.1 in
      record {
        valid = on_data_received-IsValid now http recv s b.valid;
        drivers = grows.1 ∙ b.drivers;
        known =
            subst (λ m. All (IsKnown ds) m) (sym grows.0)
              (grown-All (IsKnown ds) (asked_parsed s p) p.0 s.waiting_requests
                (λ h e.
                  subst (λ m. IsKnown m (p.0.id, p.0)) b.drivers (asked_parsed-IsKnown s p h e))
                b.known);
        even = omega (arith, keeps, b.even);
      }

  replies-IsBalanced :
      (now : ℕ) (response : HttpResponse) (s : Resolver)
      → IsBalanced ds i s
      → IsBalanced ds i (on_http_response_received now response s)
  unfolding on_http_response_received
  replies-IsBalanced now response s b =
      let o = lookup ◌==◌ response.id s.waiting_requests in
      let kept = respond-All (IsKnown ds) now response s o b.known in
      let keeps = respond-Keeps i now response s o refl (keyed_driver s b.valid) (λ r e.
        subst (λ m. IsKnown m (response.id, r)) (sym b.drivers)
          (lookup-All ◌==◌ ==_iff (IsKnown ds) response.id r s.waiting_requests b.known e)) in
      record {
        valid = on_http_response_received-IsValid now response s b.valid;
        drivers = kept.1 ∙ b.drivers;
        known = kept.0;
        even = omega (arith, keeps, b.even);
      }

  handle_all-IsBalanced :
      (xs : List Traffic) (s : Resolver)
      → AllRegular xs s
      → IsBalanced ds i s
      → IsBalanced ds i (handle_all xs s)
  handle_all-IsBalanced [] s ok b = b
  handle_all-IsBalanced (asks now http recv ∷ xs) s ok b =
      handle_all-IsBalanced xs (on_data_received now http recv s) ok.1
        (asks-IsBalanced now http recv s ok.0 b)
  handle_all-IsBalanced (replies now response ∷ xs) s ok b =
      handle_all-IsBalanced xs (on_http_response_received now response s) ok.1
        (replies-IsBalanced now response s b)

-- The metrics add up: once the exporter has started and the rows of drivers were loaded, after any
-- datagrams and HTTP responses, with ids that no request waits under and an HTTP client that does
-- not throw, the counter of a driver's requests is that of its failed ones, that of its finished
-- ones and the number of requests that wait for it together, and no freed counter was used, if
-- none was before.
pub handle_all-counters :
    (rows : List (Option Driver)) (xs : List Traffic) (e : Exporter) (i : ℤ) (d : Driver)
    → e.is_undefined ≡ false
    → lookup eq_ℤ i (load_rows rows []) ≡ some d
    → AllRegular xs (configure (some rows) initial).0
    → let s = handle_all xs (configure (some rows) initial).0 in
      let t = meter (load_rows rows []) s.effects (init_rows rows (start true e)) in
      (value (labels_of d) t.requests_count
        ≡ value (labels_of d) t.requests_failed
          + value (labels_of d) t.requests_finished
          + waits i s.waiting_requests)
      × (t.is_undefined ≡ false)
unfolding configure initial
handle_all-counters rows xs e i d undefined found regular =
    let ds = load_rows rows [] in
    let first = (configure (some rows) initial).0 in
    let valid = configure-IsValid (some rows) initial initial-IsValid in
    let balanced =
      handle_all-IsBalanced ds i xs first regular
        (record { valid = valid; drivers = refl; known = tt; even = refl }) in
    let values =
      meter-values ds valid.drivers_keyed i d found rows (handle_all xs first).effects e
        undefined in
    (omega (arith, values.0, values.1, balanced.even), values.2)
