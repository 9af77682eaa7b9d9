-- ===== src/Devices/Tests.antt =====
-- A disk of 1000 bytes.
