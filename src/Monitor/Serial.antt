-- ===== src/Monitor/Serial.antt =====
-- One round of the monitor (kern/monitor.c) on the console of kern/console.c, for a line that comes over the serial
-- port.
mod Tests
use sisop_tps.Memory.{Memory}
use sisop_tps.Console.Ring.Line.{Line}
