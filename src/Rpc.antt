-- ===== src/Rpc.antt =====
-- The runtime of ccrpc/source/rpc.c: its tables and lock, the senders, the handlers of requests
-- and responses, the receive path and the client call.
pub mod State
pub mod Seq
pub mod Send
pub mod Request
pub mod Response
pub mod Receive
pub mod Call
pub mod Registry
pub mod Invariant
pub mod Clock
pub mod Exchange
pub mod Steps
