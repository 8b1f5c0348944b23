-- ===== src/Lib.antt =====
-- Lirvena, a QQ protocol client for many accounts. This library models the parts of it that carry
-- its own state and its own wire formats, as functions that compute, and proves what they promise.
--
-- How the parts interact. Bytes from and to the QQ servers pass through the bounded readers and
-- writers of crates/qq-wire and are encrypted by the cipher of crates/qq-envelope. A session that
-- is logged in is driven by the controller of crates/qq-domain (online), which the client's loop
-- calls with the outcome of each action. Every account has an actor of crates/account-runtime that
-- owns its durable state and the history of its phases. At startup crates/account-runtime also
-- assigns every account a realm. The client's link to Ceylith carries the frames of
-- crates/ceylith-protocol, sealed by the session of crates/ceylith-crypto. A request to QQ is laid
-- out by the envelopes of crates/qq-envelope and sent by the framed transport of crates/qq-transport;
-- crates/qq-session reads the same transport, hands each reply to the request that waits for it and
-- queues the pushes. What a push holds is read by the JCE reader of crates/qq-online.
--
-- Base: tests, lists, results, bytes, bits and machine integers that the other modules share.
-- Tea.Block: crates/qq-envelope/src/tea/block.rs (encrypt, decrypt, split).
-- Tea.Codec: crates/qq-envelope/src/tea/codec.rs, key.rs and error.rs. The loops over blocks run on
--   the number of whole blocks, which is enough because each turn takes one. The source of random
--   padding is an argument of encrypt_qq_tea that may fail.
-- Wire.Prefix, Wire.Reader, Wire.Writer: crates/qq-wire/src/error.rs, reader.rs and writer.rs. A
--   method on `&mut self` takes the receiver and returns a result and the receiver after it.
-- Wire.Oidb: crates/qq-wire/src/oidb.rs. The protobuf library is the parameter Prost, whose laws are
--   that it decodes what it encodes and bounds the length of an encoding.
-- Online.Model, Online.Plan, Online.Machine: crates/qq-domain/src/online/model.rs, plan.rs and
--   machine.rs, one function per method of OnlineMachine.
-- Account.Model, Account.Store, Account.Opening: crates/account-runtime/src/model.rs, error.rs, store.rs and
--   store/schema.rs. SQLite enters by its documented effect: each statement either fails, as the
--   record Faults decides, or does what it says, and a transaction that does not commit changes
--   nothing. Opening the file is not modelled.
-- Account.Actor: crates/account-runtime/src/actor.rs, the loop run_writer over the commands that the
--   queue yields. Threads and channels are not modelled.
-- Account.Grant: crates/account-runtime/src/grant.rs, with ordered lists for BTreeMap and BTreeSet.
-- Ceylith.Frame, Ceylith.Handshake, Ceylith.Secure: crates/ceylith-protocol/src/frame/mod.rs,
--   frame/handshake.rs, frame/secure.rs, error.rs and bounds.rs.
-- Ceylith.Channel: crates/ceylith-crypto/src/session.rs, error.rs and the constants of provider.rs
--   (open_message is SecureSession::open). The cipher state of the Noise library is the parameter
--   NoiseCipher, whose laws are that a call which succeeds adds one to the nonce, that a ciphertext
--   is a tag longer than its plaintext, and that two paired ends open what the other seals.
-- Transport: crates/qq-transport/src/tcp.rs, config.rs and error.rs. The stream is the list of what
--   its reads will meet, and a write is told how far it gets. The loops that fill a buffer run on
--   as many turns as bytes are missing, which is enough because each turn adds one.
-- Envelope: crates/qq-envelope/src/transport, one module each for sso.rs, service.rs and session.rs.
--   A text is its UTF-8 bytes. The digits of an account number run on ten places, enough for a `u32`.
-- Envelope.Varint, Envelope.Marked: crates/qq-envelope/src/marked.rs. The protobuf library, the correlation that is drawn
--   and the test of control characters are parameters.
-- Session: crates/qq-session/src/runtime.rs and error.rs; exchange_loop counts the turns of exchange.
-- Login: crates/qq-domain/src/login.rs.
-- Jce: crates/qq-online/src/push/jce/mod.rs, reader.rs and writer.rs. skip is structural on the levels
--   that are left, and its loop over the fields of a struct runs on as many turns as bytes are left.
--
-- Conventions. Integers are natural numbers with the bounds of their types written out: checked
-- operations return an option, wrapping ones take a remainder, and `usize` has 64 bits. A byte
-- string is a list of numbers; a theorem that needs them to be bytes says so. Loops are
-- structural, on fuel only where an entry above says so, with the reason why it is enough.
--
-- Not modelled: the other crates and the binary, of which codecs over protobuf, network and file
-- access, serialization and cryptography of external libraries make up the most.
pub mod Base
pub mod Tea
pub mod Wire
pub mod Transport
pub mod Envelope
pub mod Session
pub mod Login
pub mod Online
pub mod Jce
pub mod Account
pub mod Ceylith
