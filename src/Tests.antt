-- ===== src/Tests.antt =====
-- The theorems at concrete inputs, and runs of the definitions.
pub mod Fixtures
pub mod Queues
pub mod Processing
pub mod Services
pub mod Tokens
pub mod Outside
pub mod Endpoints
pub mod Workers
pub mod Requests
