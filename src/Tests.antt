-- ===== src/Tests.antt =====
-- The theorems at concrete inputs, on the server of Redis/Memory.antt.
mod Data
mod Inputs
mod Waiting
mod Codecs
mod Passes
mod Tickets
mod Schema
mod Reload
mod Progress
mod Commands
mod Boot
mod Routes
mod Restart
mod Service
mod Shifts
mod Sales
