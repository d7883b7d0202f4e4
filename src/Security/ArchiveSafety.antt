-- ===== src/Security/ArchiveSafety.antt =====
-- src/endless_library/security/archive_safety.py, in its parts: the check of member names, the
-- extraction with the choice of the ebook, and the ZIP and RAR entry points.
pub mod Members
pub mod Pick
pub mod Zip
pub mod Rar
pub mod Priority
pub mod Hygiene
pub mod Inside
