-- ===== src/Tools.antt =====
-- The command line tools.
pub mod Netperf
pub mod Ping
pub mod Traceroute
