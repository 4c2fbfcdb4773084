-- ===== src/Flood.antt =====
-- The flood sensors, rosWorkspace/SubFloodSensor/src/SubFloodSensorMain.cpp.
pub mod Packet
pub mod Sensors
pub mod Framing
pub mod Reports
pub mod Tests
