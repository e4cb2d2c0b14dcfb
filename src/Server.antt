-- ===== src/Server.antt =====
-- internal/server/wsfs: a session, what it sends, and how it serves requests.
pub mod Conn
pub mod Errno
pub mod Os
pub mod Session
pub mod Handler
pub mod FileCmds
pub mod ReadCmds
pub mod PathCmds
pub mod AttrCmds
pub mod XAttr
pub mod Answers
pub mod Run
pub mod Streams
pub mod Dirs
