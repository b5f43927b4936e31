-- ===== src/Socket.antt =====
-- src/lua-socket.c: Berkeley sockets for Lua.
pub mod System
pub mod Methods
pub mod Resolve
pub mod Resources
pub mod Replies
mod Examples
