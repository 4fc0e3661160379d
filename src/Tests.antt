-- ===== src/Tests.antt =====
-- The theorems at concrete inputs, and runs of the definitions.
mod Samples
mod Proxy
mod Bridge
mod Wire
mod Mitm
mod Socks
mod App
mod Tasks
mod Certs
mod Config
mod Tunnel
mod Outbound
