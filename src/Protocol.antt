-- ===== src/Protocol.antt =====
-- protocol/: the binary codec of an RPC message, the byte order on the wire, and the dispatch.
pub mod Endian
pub mod Archive
pub mod Stream
pub mod Factory
pub mod Rpc
mod Tests
