-- ===== src/Proxy.antt =====
-- internal/proxy: dispatching a request over the provider slots of its model.
pub mod Errors
pub mod Select
pub mod Attempt
pub mod Dispatch
pub mod Counts
pub mod Bounds
pub mod Budget
pub mod Answers
pub mod Stream
pub mod Estimate
