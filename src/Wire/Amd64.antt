-- ===== src/Wire/Amd64.antt =====
-- The codec that is built on amd64, struct_amd64.gen.go, which reads and writes the memory of each field
-- through unsafe, with a call of the reader or the writer of its own. The memory of a word is its bytes,
-- the low one first; string-amd64.go does the same for the length of a string.
pub mod Attr
pub mod IoCmd
pub mod RangeCmd
pub mod PathCmd
pub mod LinkCmd
pub mod Rsp
pub mod Requests
pub mod Answers
pub mod Interop
