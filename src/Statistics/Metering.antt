-- ===== src/Statistics/Metering.antt =====
-- The metrics of src/drivers/Driver.cpp: a driver's calls of the exporter, which give its name and
-- identifier, and the effects of the resolver as such calls.
use yeti_lnp_resolver.Base.{Option, none, some, List, [], ◌∷◌, ℕ, ℤ, eq_ℤ}
use yeti_lnp_resolver.Base.Assoc.{lookup}
use yeti_lnp_resolver.Resolver.State.{
  Driver, Effect, count_increment, failed_increment, finished_increment,
}
use yeti_lnp_resolver.Statistics.{
  Labels, Exporter, driver_requests_count_increment, driver_requests_failed_increment,
  driver_requests_finished_increment, driver_init_metrics,
}

-- `getName()` and `getUniqueId()`
abbrev pub labels_of : Driver → Labels
labels_of d = (d.name, d.unique_id)

unfoldable pub requests_count_increment : Driver → Exporter → Exporter
requests_count_increment d = driver_requests_count_increment (labels_of d)

unfoldable pub requests_failed_increment : Driver → Exporter → Exporter
requests_failed_increment d = driver_requests_failed_increment (labels_of d)

unfoldable pub requests_finished_increment : Driver → ℕ → Exporter → Exporter
requests_finished_increment d time_consumed =
    driver_requests_finished_increment (labels_of d) time_consumed

unfoldable pub init_metrics : Driver → Exporter → Exporter
init_metrics d = driver_init_metrics (labels_of d)

-- `CDriver::instantiate` initializes the metrics of each driver that a row gives.
unfoldable pub init_rows : List (Option Driver) → Exporter → Exporter
unfolding init_metrics
init_rows [] e = e
init_rows (none ∷ rows) e = init_rows rows e
init_rows (some d ∷ rows) e = init_rows rows (init_metrics d e)

-- The effects name a driver by its identifier; the call is that of the driver in the map.
abbrev pub with_driver : Option Driver → (Driver → Exporter → Exporter) → Exporter → Exporter
with_driver none call e = e
with_driver (some d) call e = call d e

abbrev pub meter_effect : List (ℤ × Driver) → Effect → Exporter → Exporter
meter_effect drivers (count_increment i) e =
    with_driver (lookup eq_ℤ i drivers) requests_count_increment e
meter_effect drivers (failed_increment i) e =
    with_driver (lookup eq_ℤ i drivers) requests_failed_increment e
meter_effect drivers (finished_increment i time) e =
    with_driver (lookup eq_ℤ i drivers) (λ d. requests_finished_increment d time) e
meter_effect drivers _ e = e

-- What the exporter holds once the resolver has had its effects.
unfoldable pub meter : List (ℤ × Driver) → List Effect → Exporter → Exporter
unfolding requests_count_increment requests_failed_increment requests_finished_increment
meter drivers [] e = e
meter drivers (x ∷ xs) e = meter drivers xs (meter_effect drivers x e)
