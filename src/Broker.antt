-- ===== src/Broker.antt =====
-- Package internal/broker: the background process that runs remote jobs and keeps their records.
pub mod Ids
pub mod Wait
pub mod Exit
pub mod Frame
pub mod Job
pub mod Errors
pub mod State
pub mod Reply
pub mod Remote
pub mod Run
pub mod Watch
pub mod Listing
pub mod Exec
pub mod Finalize
pub mod Output
pub mod RunLog
pub mod Commands
pub mod Conn
pub mod Keeps
pub mod Store
pub mod Identity
