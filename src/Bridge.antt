-- ===== src/Bridge.antt =====
-- websocket_bridge.py, in its parts: the idle pool, the outside world with its exceptions, the
-- request that is sent, the opening of a connection, the retries, and the events streamed back.
pub mod Pool
pub mod Tasks
pub mod Factory
pub mod Request
pub mod World
pub mod Connect
pub mod Retry
pub mod Sse
pub mod Release
pub mod Stream
