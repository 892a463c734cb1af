-- ===== src/Tests.antt =====
-- The theorems of the other files, each applied to the runtime, the rows and the requests of
-- Sample.antt.
mod Storage
mod Delivery
mod Requests
mod Probes
mod System
mod Tools
mod EndToEnd
