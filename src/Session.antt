-- ===== src/Session.antt =====
-- packages/core/src/encryption/session.ts.
pub mod Device
pub mod Ratchet
pub mod Manager
pub mod Messages
pub mod Sending
pub mod Receiving
pub mod Handshake
pub mod Conversation
pub mod Forgeries
pub mod Dialogue
pub mod LateMessages
pub mod ForgedFirst
