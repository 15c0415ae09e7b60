-- ===== src/Examples.antt =====
-- Concrete runs of the modelled program, a module for each part of it.
mod Streams
mod Requests
mod Candidates
mod Metering
mod Served
mod Parsed
mod Managed
mod Handled
mod Runs
