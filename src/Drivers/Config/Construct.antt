-- ===== src/Drivers/Config/Construct.antt =====
-- From a database row to a driver: the constructors of the classes of src/drivers, as
-- `CDriver::instantiate` of src/drivers/Driver.cpp calls them. The CSV file, the SIP stack and the
-- memory of a new Bulkvs configuration are parameters.
use yeti_lnp_resolver.Base.{ℕ, Bool, Option, none, some, Bytes, c_str, ◌⊎◌, inl, inr}
use yeti_lnp_resolver.Resolver.State.{Driver}
use yeti_lnp_resolver.Drivers.Json.{JsonLibrary}
use yeti_lnp_resolver.Drivers.Select.{
  DriverId, null_driver, sip, http_thinq, mhash_csv, http_alcazar, http_coure_anq, cnam_http,
  http_bulkvs, Format,
}
use yeti_lnp_resolver.Drivers.Sip as Sip
use yeti_lnp_resolver.Drivers.Csv as Csv
use yeti_lnp_resolver.Drivers.Http.{thinq_driver, alcazar_driver, bulkvs_driver}
use yeti_lnp_resolver.Drivers.CoureAnq.{coure_anq_driver}
use yeti_lnp_resolver.Drivers.Cnam.{cnam_driver}
use yeti_lnp_resolver.Drivers.Config.{ConfigRow, DriverCfg}
use yeti_lnp_resolver.Drivers.Config.Constructors.{sip_cfg, thinq_cfg, alcazar_cfg}
use yeti_lnp_resolver.Drivers.Config.Parameters.{bulkvs_cfg, csv_cfg, coure_anq_cfg, cnam_cfg}

-- What the constructors find: the content of a file, if it opens, the SIP stack's answer to a URI,
-- and the memory.
pub record Surroundings : Type 0 where
  pub read_file : Bytes → Option Bytes
  pub sip_stack : Bytes → Sip.SipEvent
  pub memory : ℕ × Bool

-- `none` where the configuration's constructor throws.
abbrev pub driver_of {ℓ} : {A : Type ℓ} → (A → Driver) → Bytes ⊎ A → Option Driver
driver_of make (inl what) = none
driver_of make (inr cfg) = some (make cfg)

abbrev pub csv_loaded : DriverCfg → Csv.Loaded Csv.Hash → Option Driver
csv_loaded base (Csv.ok hash) = some (Csv.csv_driver base.uniq_id hash)
csv_loaded base _ = none

abbrev pub csv_driver_of : Surroundings → Bytes ⊎ (DriverCfg × Bytes) → Option Driver
csv_driver_of w (inl what) = none
csv_driver_of w (inr (base, path)) =
    csv_loaded base (Csv.load_driver (some (w.read_file (c_str path))))

-- The switch of `instantiate`.
unfoldable pub construct :
    JsonLibrary → Surroundings → Format → ConfigRow → DriverId → Option Driver
unfolding sip_cfg thinq_cfg alcazar_cfg bulkvs_cfg csv_cfg coure_anq_cfg cnam_cfg
construct j w f row null_driver = none
construct j w f row sip = driver_of (Sip.sip_driver w.sip_stack) (sip_cfg j f row)
construct j w f row http_thinq = driver_of (thinq_driver j) (thinq_cfg j f row)
construct j w f row mhash_csv = csv_driver_of w (csv_cfg j f row)
construct j w f row http_alcazar = driver_of (alcazar_driver j) (alcazar_cfg j f row)
construct j w f row http_coure_anq = driver_of (coure_anq_driver j) (coure_anq_cfg j f row)
construct j w f row cnam_http = driver_of (cnam_driver j) (cnam_cfg j f row)
construct j w f row http_bulkvs = driver_of (bulkvs_driver j) (bulkvs_cfg j w.memory f row)
