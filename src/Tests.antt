-- ===== src/Tests.antt =====
-- Concrete inputs: the parameters instantiated by small functions, and each theorem applied there.
mod Codes
mod Toy
mod Crypto
mod Session
mod Handshake
mod Dialogue
mod Stores
mod Forgeries
mod LateMessages
mod ForgedFirst
mod Socket
mod Client
mod Worker
mod Emoji
mod Adding
mod QrPayload
mod Login
mod Panel
mod Bubble
