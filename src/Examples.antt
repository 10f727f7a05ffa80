-- ===== src/Examples.antt =====
-- The theorems at concrete inputs: the library and the other parameters are instances that compute.
mod Base
mod Packets
mod Servers
mod Handlers
mod Clients
mod Awaiting
mod Threads
mod Tasks
mod Processes
mod Rounds
mod Session
mod ClientThreads
mod ClientSession
mod Handles
mod Policies
