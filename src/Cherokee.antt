-- ===== src/Cherokee.antt =====
-- concurrency-bugs/cherokee-0.9.2/cherokee-client.c and
-- concurrency-bugs/cherokee-bug1/cherokee-client.c: the clients that drive the Cherokee web server
-- and read its access log.
pub mod Sscanf
pub mod Log
pub mod Stamps
pub mod Client
pub mod Lines
pub mod Bug1
mod Tests
