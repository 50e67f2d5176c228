-- ===== src/Tests.antt =====
-- Concrete runs, and an implementation of the database client to run on.
pub mod Client
pub mod Data
pub mod Actions
pub mod Runs
pub mod Billing
pub mod Flow
pub mod Linking
pub mod Mail
pub mod Listing
pub mod Stripe
pub mod Health
pub mod RateLimit
pub mod System
pub mod Push
pub mod Auth
