-- ===== src/Gomod.antt =====
-- The Go package manager: cachito/workers/pkg_managers/gomod.py.
pub mod Names
pub mod Matching
pub mod LocalDeps
pub mod Relocation
pub mod Modules
pub mod Deduplication
pub mod Vendor
pub mod Vendored
pub mod Tags
pub mod HighestTag
pub mod ListFile
pub mod Merging
pub mod Tests
pub mod ModuleTests
pub mod TagTests
