-- ===== src/Runs.antt =====
-- The theorems at concrete inputs: a message that fits a buffer, and a session on a small system.
pub mod Wire
pub mod System
pub mod Server
pub mod XAttr
pub mod Client
pub mod Remote
pub mod Amd64
pub mod Streams
pub mod LifeCycle
pub mod Directory
