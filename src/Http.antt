-- ===== src/Http.antt =====
-- CoSocket/net/http: the HTTP side of the library.
pub mod Table
pub mod Parser
pub mod Encoder
pub mod Decoder
pub mod Dispatch
pub mod Client
