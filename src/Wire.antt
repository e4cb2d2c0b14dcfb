-- ===== src/Wire.antt =====
-- internal/share/wsfsprotocol: the structs of the protocol, how they are written and read, and the
-- requests that are made of them.
pub mod Bytes
pub mod Source
pub mod Sink
pub mod Str
pub mod Attr
pub mod Amd64
pub mod IoCmd
pub mod RangeCmd
pub mod PathCmd
pub mod LinkCmd
pub mod Rsp
pub mod Response
pub mod Command
pub mod Text
pub mod Codes
