-- ===== src/Tests.antt =====
-- The theorems at concrete inputs.
mod Prefixes
mod Tables
mod Messages
mod Filters
mod Streams
mod Attributes
mod Maps
mod Packets
mod Events
