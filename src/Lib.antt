-- ===== src/Lib.antt =====
-- Winkd Messenger: end-to-end encrypted sessions, key stores, contacts and conversations.
--
-- The program. `SignalSessionManager` (packages/core/src/encryption/session.ts) keeps one ratchet
-- session for each peer in a key store (keystore.ts: in IndexedDB, or in memory) and calls the
-- primitives of crypto.ts, which wrap the browser's WebCrypto. A session starts with X3DH from a
-- bundle of pre-keys and goes on with the Double Ratchet. Beside it, `ContactManager`
-- (packages/core/src/contacts/index.ts) groups contacts, and `WinkdClient`
-- (packages/core/src/protocol/client.ts) is the connection to the server. The web client keeps
-- contacts, conversations and who is signed in, in three stores
-- (apps/web/src/stores/contactsStore.ts, chatStore.ts and authStore.ts), and has a connection of
-- its own in apps/web/src/hooks/useSocket.ts, whose handlers change the three stores.
--
-- The files.
-- - Prelude: texts as lists of UTF-16 units, the tests on them, `Dict` for a Map or an object in
--   insertion order, `Keyed` for lists whose elements have a key.
-- - Codec: `buf_to_hex`, `hex_to_buf`, `buf_to_base64`, `base64_to_buf` of crypto.ts, with `btoa` and
--   `atob` after the documented algorithm, and decimal numerals.
-- - Result: what a call throws.
-- - Crypto: the rest of crypto.ts. WebCrypto has the browser's functions as a record, Assumptions what
--   is relied on of them; Keys, PreKeys, Kdf and X3dh model `generateDHKeyPair`, `dh`, `signPreKey`,
--   `verifyPreKey`, `kdfRootKey`, `kdfChainKey`, `aesGcmEncrypt`, `x3dh`, `x3dhRespond` and the others,
--   SafetyNumber models `computeSafetyNumber`.
-- - KeyTypes: types.ts and the wire message of session.ts.
-- - KeyStore: the interface and its laws; InMemory and IndexedDb are the two stores.
-- - Session: Device is the state that a call passes on (the key store and the number of random draws)
--   and the monad of calls that may throw. Ratchet has the parts of `encrypt`, `decrypt` and
--   `skipMessageKeys` that act on a session in memory, Manager the four methods. Sending, Receiving,
--   Conversation, Handshake and Dialogue prove what two devices do together: within one chain, from a
--   bundle to the first message, and in a conversation in turns. Forgeries, ForgedFirst
--   and LateMessages prove what a message leaves behind that does not open, or comes late from an
--   earlier chain.
-- - Contacts: packages/types/src/contact.ts and user.ts; Store is contactsStore.ts, Manager is
--   `ContactManager`, with its QR payload in Manager.QrPayload.
-- - Messages: packages/types/src/message.ts and the message lists of chatStore.ts.
-- - Chat: chatStore.ts.
-- - Auth: authStore.ts.
-- - Text, Json: what the web client uses of JavaScript's strings and of parsed JSON; Text.Split is
--   `split` by a regular expression.
-- - Connections: WebSocket connections by number, and the log of what was sent on them.
-- - Client: client.ts; Sound and Laws have its step relation and what it keeps, Reconnecting what lost
--   connections lead to.
-- - ServerEvents: what the server sends, and how the payload of a message is read (useSocket.ts).
-- - Socket: the handler of server events in useSocket.ts; Frames and Events prove what sequences of
--   frames and single events do to the stores, Hook has the effect that opens a connection, its
--   clean-up and `send`.
-- - Emoji: emojiAssets.ts and EmojiPicker.tsx under apps/web/src/components; Tokens has the laws of a
--   token, Catalogue and UnicodeCatalogue are the picker's categories, Picker what it shows of them,
--   Rich is RichEmojiText.tsx.
-- - Avatar: what Avatar.tsx of packages/ui shows of a person.
-- - Bubble: MessageBubble.tsx; Urls has its regular expressions, Links what its text can link to.
-- - Composer: what ChatWindow.tsx sends, Sidebar: the handlers of Sidebar.tsx; Sidebar.Qr follows the QR
--   code of one person into the contact request of another.
-- - Login: apps/web/src/pages/LoginPage.tsx; a request and its reply are one step.
-- - Security: SecuritySettings.tsx under apps/web/src/components; Controls has what can be clicked,
--   Steps what can happen in which order, Reached and LostCard what holds after it.
-- - ServiceWorker: apps/web/public/sw.js; Offline proves what it answers without a network.
-- - Tests: WebCrypto, JSON and key stores as small concrete functions, and the theorems applied there.
--
-- The model. A promise that rejects and an exception are values of `Result`, and the state that was
-- reached before it is kept. What the browser provides (WebCrypto, JSON of a wire message, UTF-8)
-- is a parameter: `IsWebCrypto`, `IsWireJson`, `IsUnicode`, `IsUriCodec` and `IsUrlParser` name what is relied on,
-- and Tests has small functions that meet them. Random bytes and keys are functions of the number
-- of the draw. Numbers are natural numbers: counters stay far below 2^53. The loop of
-- `skipMessageKeys` runs for a number of rounds that is computed before it, `target - recvCount`,
-- which is the number of rounds that the source's condition allows; Session.Ratchet.Rounds has the
-- loop with that condition, on fuel. No other function needs fuel.
-- `crypto.randomUUID` and the time are arguments of the actions of the chat store, and the callback
-- `send` is modelled by the payload that it is given. The payloads that useSocket.ts casts without
-- a check have the types that they are cast to; the payload of `message` is any JSON value. A
-- number in JSON is taken to be a natural. The tables of Unicode behind `toLowerCase` are a
-- parameter. The regular expressions of emojiAssets.ts, RichEmojiText.tsx and MessageBubble.tsx are
-- written out as tests on texts. The service worker finishes what goes on in the background before its next event.
-- Connections and timers are numbered in the order in which they are made. No handler of
-- `WinkdClient` is added or removed while one runs.
--
-- Not modelled. Two calls for one peer that overlap: each call is one step. Failing requests of
-- IndexedDB. The object that the in-memory store shares with its caller: a store keeps copies. An
-- object's order of keys that look like integers. The names of inherited members as keys of an
-- object, except where `markMessageDelivered` finds one. A JSON object with a member toString of its own,
-- which `String` throws on. The storage of the
-- auth store, the markup of the React views, the static prototypes of pages, and the server, which is written in Rust.
pub mod Prelude
pub mod Codec
pub mod Result
pub mod Crypto
pub mod KeyTypes
pub mod KeyStore
pub mod Session
pub mod Contacts
pub mod Messages
pub mod Chat
pub mod Auth
pub mod Avatar
pub mod Text
pub mod Json
pub mod Connections
pub mod Client
pub mod ServerEvents
pub mod Socket
pub mod ServiceWorker
pub mod Emoji
pub mod Composer
pub mod Login
pub mod Bubble
pub mod Security
pub mod Sidebar
pub mod Tests
