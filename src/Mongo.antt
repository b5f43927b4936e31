-- ===== src/Mongo.antt =====
-- src/cext/lua-mongo.c: the messages of the MongoDB wire protocol.
pub mod Buffer
pub mod Messages
pub mod Wire
pub mod Sends
pub mod Driver
pub mod Reply
pub mod Filling
pub mod Replies
pub mod Branches
pub mod Answers
pub mod Documents
mod Examples
