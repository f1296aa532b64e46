-- ===== src/RateLimit.antt =====
-- internal/ratelimit: the limiter that charges requests against windows of time. Its data, its
-- operations and, in the other children, what has been proved of them.
pub mod Types
pub mod Keys
pub mod Clock
pub mod Limiter
pub mod Ledger
pub mod Charges
pub mod Reserve
pub mod Refinement
pub mod Refund
pub mod Settle
pub mod Interleave
