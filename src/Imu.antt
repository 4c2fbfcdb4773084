-- ===== src/Imu.antt =====
-- The IMU driver, rosWorkspace/SubImuController/src.
pub mod Buffer
pub mod Float32
pub mod Field
pub mod FieldList
pub mod Packet
pub mod Driver
pub mod Tests
