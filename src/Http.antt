-- ===== src/Http.antt =====
-- src/lua-http-parser.c: the binding of http_parser, and the Lua table that its callbacks fill.
pub mod Dict
pub mod Callbacks
pub mod Execute
pub mod Url
pub mod Headers
pub mod Outcome
mod Examples
