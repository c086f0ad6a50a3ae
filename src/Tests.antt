-- ===== src/Tests.antt =====
-- The theorems at concrete inputs, and test runs.
mod StateMachine
mod Catalog
mod Ingestion
mod Registration
mod Chunking
mod System
mod Publication
mod Service
mod Pipeline
mod Activation
mod Cleanups
