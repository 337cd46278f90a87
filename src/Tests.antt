-- ===== src/Tests.antt =====
-- The theorems at concrete inputs.
mod Texts
mod Stores
mod Queues
mod Threads
mod Server
mod Transfers
mod Managers
mod Mirrors
mod Consoles
mod Lives
