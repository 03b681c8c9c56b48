-- ===== src/Values.antt =====
-- Values that several parts of the program read: decoded JSON and UUIDs.
pub mod Json
pub mod Uuid
