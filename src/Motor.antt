-- ===== src/Motor.antt =====
-- The motor controllers, rosWorkspace/SubMotorController/src.
pub mod Time
pub mod Message
pub mod Handler
pub mod Node
pub mod HighLevel
pub mod Tests
pub mod NodeTests
