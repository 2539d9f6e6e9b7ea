-- ===== src/Rpc.antt =====
-- acid/rpc: the messages of the RPC protocol and the services that handle them.
pub mod Protocol
pub mod Routing
pub mod Serializer
pub mod Session
pub mod Results
pub mod Registry
pub mod Server
pub mod Client
pub mod Pool
