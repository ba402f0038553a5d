-- ===== src/Protocol.antt =====
-- packages/protocol/src: the shapes of the messages that the browser and the server exchange.
pub mod Primitives
pub mod Schema
pub mod Server
pub mod Rest
pub mod Checked
pub mod Client
