-- ===== src/Ingest.antt =====
-- Importing files: the field mapper of src/domains/data_import/mapping.py, the tables behind
-- src/domains/data_import/repository.py and `ImportService` of src/domains/data_import/service.py.
pub mod Mapping
pub mod Similar
pub mod AutoMap
pub mod Targets
pub mod Mapped
pub mod Records
pub mod World
pub mod Confirm
pub mod Service
pub mod Plain
pub mod Loop
pub mod Rows
pub mod Confirmed
pub mod Ending
pub mod Ended
pub mod Again
pub mod Template
pub mod Parsed
mod Tests
