-- ===== src/Examples.antt =====
-- CoSocket/example: the programs that use the library.
pub mod Servers
pub mod Shared
pub mod Forward
pub mod HttpServer
pub mod Throughput
pub mod Clients
