-- ===== src/Tests.antt =====
-- The theorems at concrete inputs.
mod Stream
mod Cache
mod Calls
mod Polls
mod Methods
mod Models
mod Iterators
mod Runs
mod Async
mod Alone
mod Transport
mod Connection
