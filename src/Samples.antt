-- ===== src/Samples.antt =====
-- Concrete runs, and the theorems at concrete inputs.
mod Bytes
mod Messages
mod Clocks
mod Services
mod Streaming
mod Sequences
mod Fibers
mod Pages
mod Workers
mod Directory
mod Tables
mod Polls
mod Calls
mod Hooked
