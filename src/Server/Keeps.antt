-- ===== src/Server/Keeps.antt =====
-- The steps of the server of server/UDP/UDP.cpp and its invariant.
pub mod Sends
pub mod Hellos
pub mod Others
pub mod Enters
pub mod Clients
pub mod Rooms
pub mod Frames
pub mod Flush
pub mod Rounds
