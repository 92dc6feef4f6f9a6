-- ===== src/Ssh.antt =====
-- Package internal/sshconn: the pure parts of the SSH transport.
pub mod Shell
pub mod Command
pub mod Jump
pub mod Enrich
pub mod LimitBuffer
