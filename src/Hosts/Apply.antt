-- ===== src/Hosts/Apply.antt =====
-- `applyTaggedLine`: afterwards the entry is there, the lines of others read as before, and the
-- content is only written to where it differs.
pub mod Lines
pub mod Block
pub mod Laws
