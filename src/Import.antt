-- ===== src/Import.antt =====
-- Validation of imported rows: src/domains/data_import/validator.py.
pub mod Value
pub mod Result
pub mod Rules
pub mod Validator
pub mod Builtin
pub mod Service
pub mod Summary
pub mod Status
pub mod Duplicates
pub mod Batch
mod Tests
