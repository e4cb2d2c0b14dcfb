-- ===== src/Util.antt =====
-- internal/util: the buffer that messages are put together in, and the test of paths.
pub mod Buffer
pub mod Strings
pub mod Url
