-- ===== src/Examples.antt =====
-- The theorems at concrete inputs.
mod Firmware
mod Numbers
mod Paging
mod Queues
mod Components
mod System
mod Timers
mod Streams
mod Locks
mod Barriers
mod Caches
mod Controllers
mod Receiving
mod CanMessages
