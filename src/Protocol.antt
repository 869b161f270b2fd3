-- ===== src/Protocol.antt =====
-- src/protocol.c and include/protocol.h: requests, their handlers, and responses. `State` has
-- what a connection's thread works on, `Streaming` and `Handlers` the handlers, and `Request`
-- the dispatch; the other modules prove things about them.
pub mod State
pub mod Streaming
pub mod Fuel
pub mod Handlers
pub mod Request
pub mod Frame
pub mod Cases
pub mod Gate
pub mod Roles
pub mod Confined
pub mod Responses
pub mod Upload
pub mod Download
