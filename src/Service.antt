-- ===== src/Service.antt =====
-- server/ServiceDB.cpp: the domain that a packet names, and the black list of domains.
pub mod Extract
pub mod Blacklist
