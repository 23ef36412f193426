-- ===== src/Examples.antt =====
-- The theorems at concrete inputs.
mod Buffers
mod Sockets
mod Transfers
mod Messages
mod Calls
mod Threads
mod Listening
mod Channels
mod Polls
mod Stubs
mod Remotes
mod Wirings
mod Races
mod Endings
mod Exchanges
