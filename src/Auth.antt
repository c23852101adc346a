-- ===== src/Auth.antt =====
-- Who calls and what they may do: the session's context (Context), roles (Rbac), and the rate
-- limiter of public writes (RateLimiter).
pub mod Context
pub mod Rbac
pub mod RateLimiter
pub mod Cidr
pub mod ClientAddress
pub mod Throttle
pub mod Sessions
pub mod Login
pub mod Guards
