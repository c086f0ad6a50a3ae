-- ===== src/Ingestion.antt =====
-- app/services/ingestion: the workers' jobs.
pub mod NativeJobs
pub mod Ocr
pub mod Search
pub mod Publication
pub mod Retry
pub mod Chunking
