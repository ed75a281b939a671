-- ===== src/Tests.antt =====
-- The theorems at concrete inputs: a resolver with one local and one remote driver, datagrams, URLs,
-- a CSV file and SIP redirects.
pub mod Handlers
pub mod Meters
pub mod Start
pub mod Wire
pub mod Network
pub mod Sources
pub mod Replies
pub mod Templates
pub mod Writer
pub mod Client
pub mod Running
pub mod Events
pub mod Rows
pub mod Services
