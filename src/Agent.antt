-- ===== src/Agent.antt =====
-- The load-test agent, implementation/agent/src.
pub mod Kit
pub mod Random
pub mod Types
pub mod Profile
pub mod Client
pub mod Backend
pub mod Seats
pub mod Browse
pub mod Items
pub mod Order
pub mod Jwt
pub mod Vu
pub mod Loops
pub mod Journey
pub mod Scenario
pub mod Logger
pub mod World
pub mod Tests
