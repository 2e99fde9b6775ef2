-- ===== src/Yarn.antt =====
-- The yarn package manager: cachito/workers/pkg_managers/yarn.py.
pub mod Reachable
pub mod Search
pub mod Found
pub mod NonDev
pub mod Replace
pub mod Replaced
pub mod Tests
