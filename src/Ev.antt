-- ===== src/Ev.antt =====
-- src/lua-ev.c: event loops of libev for Lua.
pub mod Loop
pub mod Run
pub mod Libev
pub mod Watcher
pub mod Agreement
pub mod Listed
pub mod Stages
pub mod Defined
pub mod Sample
pub mod Delivery
mod Examples
mod Watching
