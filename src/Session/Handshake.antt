-- ===== src/Session/Handshake.antt =====
-- The first message of a conversation: `initSessionFromBundle`, `encrypt`, `decrypt`.
pub mod Agreed
pub mod Initiator
pub mod Responder
pub mod FirstMessage
