-- ===== src/Payment.antt =====
-- The payment service, implementation/payment/src.
pub mod Json
pub mod Entity
pub mod Platform
pub mod Invoice
pub mod App
pub mod Notifier
pub mod Health
pub mod World
pub mod Start
pub mod Tests
pub mod Config
pub mod Env
pub mod Echo
pub mod Shutdown
