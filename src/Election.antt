-- ===== src/Election.antt =====
-- The election and the heartbeat monitor of a server (startElection, the election handlers and
-- startHeartbeatMonitor in T1/server/Server.cpp), over all the packets that the main loop handles
-- while a thread sleeps.
pub mod Window
pub mod Outcome
pub mod Monitor
pub mod System
