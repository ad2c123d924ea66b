-- ===== src/Sharding.antt =====
-- The code under sharding.
pub mod Sorted
pub mod Ring
pub mod Membership
