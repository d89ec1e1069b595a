-- ===== src/Tests.antt =====
-- Runs of the definitions on small inputs, for the modules of event_sourcery/ that Lib.antt names.
pub mod Data
mod Memory
mod Log
mod Names
mod Projection
mod Polling
mod Values
mod Streams
pub mod Orders
mod Rows
mod Turns
mod Entries
mod Server
mod First
