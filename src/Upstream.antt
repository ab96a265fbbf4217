-- ===== src/Upstream.antt =====
-- src/upstream/: the UDP listener of triton_shred.rs, the gRPC stream of triton.rs, and the live
-- states and statuses of all upstreams.
pub mod TritonShred
pub mod Triton
pub mod Live
pub mod Lines
pub mod Construct
mod Tests
