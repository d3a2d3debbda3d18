-- ===== src/Httrack.antt =====
-- concurrency-bugs/httrack-3.43.9/httrack-client.c: the client that drives the HTTrack server.
pub mod Buffer
pub mod Url
pub mod Forms
pub mod Scan
pub mod Transport
pub mod Http
pub mod Workflow
pub mod Threads
mod Tests
