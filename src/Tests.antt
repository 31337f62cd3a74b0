-- ===== src/Tests.antt =====
-- Runs of the model on concrete inputs, and the theorems applied to them.
pub mod Requests
pub mod Servers
pub mod Sessions
pub mod Polls
pub mod Stored
pub mod Rounds
pub mod Epolls
pub mod Echoes
pub mod Slots
pub mod Basics
pub mod Clients
