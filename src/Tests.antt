-- ===== src/Tests.antt =====
-- Concrete runs of the models, each an instance of a theorem about them.
mod Samples
mod Queues
mod Texts
mod Calls
mod Runs
mod Threads
mod Clients
mod Printing
mod Shutdowns
mod Jobs
