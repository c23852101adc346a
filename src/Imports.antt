-- ===== src/Imports.antt =====
-- The import and export of products as CSV (apps/api/src/imports).
pub mod Csv
