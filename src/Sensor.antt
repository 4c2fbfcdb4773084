-- ===== src/Sensor.antt =====
-- The sensor board, rosWorkspace/SubSensorController/src.
pub mod Timer
pub mod Line
pub mod Board
pub mod Publish
pub mod Reading
pub mod Quiet
pub mod Again
pub mod Tests
