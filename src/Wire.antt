-- ===== src/Wire.antt =====
-- The line protocol of server/ServerAdmin/AdminWire.h: frames with a four-byte length, and flat JSON
-- objects. A byte string is a list of bytes.
pub mod Frames
pub mod Json
