-- ===== src/TcpServer/Keeps.antt =====
-- The invariant of the sessions over a run of src/server/src/TcpServer.cpp: its rules, the handlers,
-- and the events.
pub mod Rules
pub mod Actions
pub mod Handlers
pub mod Dispatching
pub mod Events
