-- ===== src/Features.antt =====
-- internal/features: the estimates from which a player's review tier is decided.
pub mod Readiness
pub mod Validation
pub mod Matched
pub mod Stability
pub mod PreExposure
pub mod Screens
pub mod Sector
