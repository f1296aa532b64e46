-- ===== src/Router.antt =====
-- internal/router: choosing a provider group and a credential for a request, and the health records
-- that the choice rests on.
pub mod Breaker
pub mod Float
pub mod Group
pub mod Table
pub mod Feedback
pub mod Probes
pub mod Eligible
pub mod Rotation
pub mod ProbeSeat
pub mod Cooldown
