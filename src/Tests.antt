-- ===== src/Tests.antt =====
-- The theorems at concrete inputs.
mod Server
mod Account
mod Formats
mod Client
mod Config
mod Engines
mod Runner
