-- ===== src/Media.antt =====
-- The media helper of packages/agent-webrtc/cbits.
pub mod Protocol
pub mod Io
pub mod Client
pub mod Device
pub mod Helper
pub mod Remote
pub mod Delivery
pub mod Call
pub mod AudioCall
pub mod Launch
pub mod Audio
pub mod Peer
pub mod Resource
