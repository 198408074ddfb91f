-- ===== src/Wire/Ids.antt =====
-- The identifier of a device whose entry names neither its index nor its uuid (cluster.py:
-- gpu_from_telemetry, _gpu_from_dict).
use constella.Wire.Json.{Json}
