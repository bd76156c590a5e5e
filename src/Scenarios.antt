-- ===== src/Scenarios.antt =====
-- A concrete world around the controller, runs of the code in it, and instances of the theorems.
mod World
mod Runs
mod Examples
mod Recovered
mod Prompts
mod Urls
mod Deadlock
mod Collided
mod Starts
mod Completed
mod Machinery
mod Copied
mod Delivered
mod Dispatched
mod Streams
