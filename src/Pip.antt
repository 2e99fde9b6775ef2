-- ===== src/Pip.antt =====
-- The pip package manager: cachito/workers/pkg_managers/pip.py.
pub mod Options
pub mod Requirement
pub mod Items
pub mod Grammar
pub mod Lines
pub mod Comments
pub mod Continuation
pub mod Intact
pub mod Writing
pub mod WrittenLine
pub mod Roundtrip
pub mod Tests
