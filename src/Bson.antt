-- ===== src/Bson.antt =====
-- src/cext/lua-bson.c: BSON documents from Lua tables, and back.
pub mod Wire
pub mod Buffer
pub mod Appends
pub mod Frames
pub mod Scalars
pub mod Encode
pub mod Arguments
pub mod Format
pub mod Special
pub mod Keys
pub mod Refines
pub mod Reader
pub mod Decode
pub mod Reads
pub mod Ordered
pub mod RoundTrip
pub mod Within
pub mod Total
pub mod Values
pub mod Index
pub mod Indexed
pub mod InPlace
pub mod Made
pub mod Kept
pub mod Sample
mod Examples
