-- ===== src/Relay.antt =====
-- The relays on the local host: the clients of src/titan_local.rs and the gRPC service of
-- src/triton_local.rs. The channel between an upstream and its clients is tokio's `broadcast`.
pub mod Channel
pub mod TitanClient
pub mod TritonService
mod Tests
