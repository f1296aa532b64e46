-- ===== src/Examples.antt =====
-- Concrete inputs on which the theorems of this library apply.
mod Configs
mod Files
mod Limits
mod Requests
mod Streams
mod Servers
mod Adapters
mod Chats
