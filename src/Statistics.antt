-- ===== src/Statistics.antt =====
-- `PrometheusExporter` of src/statistics/prometheus/prometheus_exporter.cpp: the counters of requests by
-- a driver's name and identifier. The library's registry owns the families of counters, which the
-- exporter points to; whether its HTTP server starts is an argument.
pub mod Totals
pub mod Metering
pub mod Ledger
pub mod Balance
pub mod Metrics
pub mod Conservation
use yeti_lnp_resolver.Base.{
  ℕ, suc, ◌+◌, Bool, true, false, ◌&&◌, List, [], ◌∷◌, Bytes, equal, ℤ, eq_ℤ, if◌then◌else◌,
}

-- A driver's name and identifier.
abbrev pub Labels : Type 0
Labels = Bytes × ℤ

abbrev pub eq_Labels : Labels → Labels → Bool
eq_Labels (s, a) (t, b) = equal s t && eq_ℤ a b

-- A pointer to a family, with the values of its counters: null, or to memory that was freed.
pub data Family : Type 0 where
  no_family freed : Family
  family : List (Labels × ℕ) → Family

pub record Exporter : Type 0 where
  pub requests_count : Family
  pub requests_failed : Family
  pub requests_finished : Family
  pub requests_time : Family
  pub is_undefined : Bool

-- `Add(labels).Increment(v)`: a counter that is new starts at 0.
unfoldable pub add : Labels → ℕ → List (Labels × ℕ) → List (Labels × ℕ)
add l v [] = (l, v) ∷ []
add l v ((k, n) ∷ m) = if eq_Labels k l then (k, n + v) ∷ m else (k, n) ∷ add l v m

abbrev pub increment : Labels → ℕ → Family → Family
increment l v no_family = no_family
increment l v freed = freed
increment l v (family m) = family (add l v m)

-- The use of a pointer that is not null and has nothing behind it.
abbrev pub is_freed : Family → Bool
is_freed freed = true
is_freed _ = false

abbrev pub used : Family → Exporter → Exporter
used f e = record e { is_undefined = (if is_freed f then true else e.is_undefined) }

unfoldable pub driver_requests_count_increment : Labels → Exporter → Exporter
unfolding add
driver_requests_count_increment l e = record (used e.requests_count e) {
  requests_count = increment l 1 e.requests_count;
}

unfoldable pub driver_requests_failed_increment : Labels → Exporter → Exporter
unfolding add
driver_requests_failed_increment l e = record (used e.requests_failed e) {
  requests_failed = increment l 1 e.requests_failed;
}

-- The time is in milliseconds.
unfoldable pub driver_requests_finished_increment : Labels → ℕ → Exporter → Exporter
unfolding add
driver_requests_finished_increment l time_consumed e =
    record (used e.requests_time (used e.requests_finished e)) {
      requests_finished = increment l 1 e.requests_finished;
      requests_time = increment l time_consumed e.requests_time;
    }

-- `driver_init_metrics`: the counters exist from then on.
unfoldable pub driver_init_metrics : Labels → Exporter → Exporter
unfolding add
driver_init_metrics l e =
    record (used e.requests_time
      (used e.requests_finished (used e.requests_failed (used e.requests_count e)))) {
        requests_count = increment l 0 e.requests_count;
        requests_failed = increment l 0 e.requests_failed;
        requests_finished = increment l 0 e.requests_finished;
        requests_time = increment l 0 e.requests_time;
      }

-- The registry is freed with the families; one of the pointers is not reset.
abbrev pub without_registry : Family → Family
without_registry no_family = no_family
without_registry _ = freed

unfoldable pub stop : Exporter → Exporter
stop e = record e {
  requests_count = no_family;
  requests_failed = no_family;
  requests_finished = without_registry e.requests_finished;
  requests_time = no_family;
}

-- `start`; the argument is whether the HTTP server could be bound.
unfoldable pub start : Bool → Exporter → Exporter
unfolding stop
start false e = stop e
start true e = record e {
  requests_count = family [];
  requests_failed = family [];
  requests_finished = family [];
  requests_time = family [];
}

-- A new exporter.
unfoldable pub new_exporter : Exporter
new_exporter = record {
  requests_count = no_family;
  requests_failed = no_family;
  requests_finished = no_family;
  requests_time = no_family;
  is_undefined = false;
}
