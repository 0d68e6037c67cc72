-- ===== src/Config/Defaults/Inherited.antt =====
-- A chain without a latency section takes the one of the global configuration, which internal/config/
-- config.go leaves at the threshold 0 where there is none either.
use node_gateway.Checks.LatencyCheck
