-- ===== src/HttpClient.antt =====
-- src/drivers/modules/AsyncHttpClient.cpp: the client that runs the HTTP requests of all drivers on
-- libcurl's multi interface and hands the responses to the resolver. What libcurl and the system calls
-- return, and the callbacks that libcurl makes, are arguments of the operations.
pub mod Listening
pub mod Notifier
pub mod Setup
pub mod Timer
pub mod Transfers
pub mod Sockets
pub mod State
pub mod Failures
pub mod Drain
pub mod Core
pub mod Tally
pub mod Wakeup
pub mod Handles
pub mod Asked
pub mod System
pub mod Served
pub mod Resolving
