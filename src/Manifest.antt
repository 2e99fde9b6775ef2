-- ===== src/Manifest.antt =====
-- Content manifests and the package URLs in them: cachito/web/content_manifest.py and
-- cachito/web/purl.py.
pub mod Purl
pub mod Content
pub mod Report
pub mod Standard
pub mod Collected
pub mod Components
pub mod Sorted
pub mod DeepSort
pub mod Raising
pub mod Tests
