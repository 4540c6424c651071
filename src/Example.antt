-- ===== src/Example.antt =====
-- raft_client.c, the example client: a state machine that counts letters, and a program that sends
-- it commands.
pub mod Machine
pub mod RoundTrip
pub mod Saved
pub mod Letters
pub mod Auto
pub mod Table
pub mod Options
pub mod Merging
pub mod Parsing
pub mod Refused
pub mod Commands
pub mod Program
pub mod Typed
pub mod Sent
pub mod Run
pub mod Rounds
pub mod Served
pub mod Main
