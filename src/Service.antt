-- ===== src/Service.antt =====
-- src/lib.rs, src/http.rs, src/mock.rs, src/rate_limit.rs and src/upstream/mod.rs: what the program
-- starts, what it polls, and its HTTP endpoints.
pub mod RateLimit
pub mod Hub
pub mod Mock
pub mod Http
pub mod Start
mod Tests
