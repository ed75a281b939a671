-- ===== src/Resolver.antt =====
-- src/resolver/Resolver.cpp: requests, replies, and the resolver's state machine.
pub mod Request
pub mod Reply
pub mod State
pub mod Replies
pub mod Log
pub mod Answers
pub mod Invariant
pub mod History
pub mod Collisions
pub mod Addressing
pub mod Parsing
pub mod Delivery
