-- ===== src/Monitor/Serial/Tests.antt =====
-- The monitor reads a line that has come over the serial port.
