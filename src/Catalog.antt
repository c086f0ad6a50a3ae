-- ===== src/Catalog.antt =====
-- app/services/catalog: the catalog of documents, their versions and their jobs.
pub mod Enums
pub mod StateMachine
pub mod Versions
pub mod Transitions
pub mod Operations
pub mod Reprocessing
pub mod Lifecycle
pub mod Registration
pub mod Service
