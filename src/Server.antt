-- ===== src/Server.antt =====
-- src/server.c and include/server.h: `Receive` has how a request is read from a connection,
-- `Init` the start, `Slots` the table of clients, `Shutdown` the end of the threads.
pub mod Receive
pub mod Framing
pub mod Requests
pub mod Logins
pub mod Uploads
pub mod Downloads
pub mod Sessions
pub mod Init
pub mod Slots
pub mod Shutdown
