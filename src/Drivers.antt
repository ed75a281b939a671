-- ===== src/Drivers.antt =====
-- The drivers of src/drivers.
pub mod Sip
pub mod Csv
pub mod Json
pub mod Http
pub mod CoureAnq
pub mod Cnam
pub mod SipClient
pub mod Select
pub mod Config
