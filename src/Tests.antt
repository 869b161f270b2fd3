-- ===== src/Tests.antt =====
-- Tests of the model at concrete inputs, and uses of its theorems.
mod Disk
mod Auth
mod Requests
mod Connections
mod Config
mod Client
mod EndToEnd
mod RoundTrip
mod Programs
