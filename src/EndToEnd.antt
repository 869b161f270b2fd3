-- ===== src/EndToEnd.antt =====
-- The client of src/client.c and the server of src/server.c on the two ends of a connection.
pub mod Put
pub mod Get
pub mod Login
pub mod RoundTrip
