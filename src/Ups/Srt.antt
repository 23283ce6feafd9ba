-- ===== src/Ups/Srt.antt =====
-- The register descriptors of src/ups/ups_srt.c.
pub mod Options
pub mod Table
pub mod Written
