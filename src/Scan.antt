-- ===== src/Scan.antt =====
-- From a photo or a file to a scanned receipt.
pub mod Submission
pub mod Import
pub mod Attempts
pub mod Document
pub mod Scanner
pub mod Shutter
pub mod Consent
mod Tests
