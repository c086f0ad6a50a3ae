-- ===== src/Database.antt =====
-- The rows that the catalog and the workers keep in PostgreSQL, as far as the modelled statements
-- read or write them (migrations/versions/20260716_02_catalog_core.py and the later migrations).
-- A UUID is its number. A table is the list of its rows, newest first. Left out, since no modelled
-- statement reads them, are the columns `created_at`, `heartbeat_at`, `started_at` and
-- `sanitized_context`, `updated_at` but in `search_cleanup_entries`, and the sections, the bounds
-- and the (constant) chunker of a chunk. A text that the code puts together is a constructor of
-- `VersionKey` or `EventKey`, one for each format.
pub mod Session
pub mod Leads
pub mod Quiet
use atlas_rag.Common.{ℕ, zero, suc, Bool, true, false, ◌||◌, ◌&&◌, String, Option, List, ◌==◌, max}
use atlas_rag.Common.Int.{ℤ}
use atlas_rag.Catalog.Enums.{VersionState, IngestionStage, JobState}
use atlas_rag.Catalog.StateMachine.{Operation}

abbrev pub Uuid : Type 0
Uuid = ℕ

pub data CollectionRole : Type 0 where
  owner editor viewer : CollectionRole

pub record Principal : Type 0 where
  pub subject : String
  pub tenant_id : Uuid

pub record Collection : Type 0 where
  pub id : Uuid
  pub tenant_id : Uuid
  pub name : String
  pub retention_days : ℕ
  pub upload_max_bytes : ℕ
  pub document_quota : ℕ
  pub storage_quota_bytes : ℕ

pub record Membership : Type 0 where
  pub tenant_id : Uuid
  pub collection_id : Uuid
  pub principal_subject : String
  pub role : CollectionRole

pub record SourceDocument : Type 0 where
  pub id : Uuid
  pub tenant_id : Uuid
  pub collection_id : Uuid
  pub source_key : String
  pub display_name : String

-- An idempotency key of a version: the client's, or `f"reprocess:{request_id}"`.
pub data VersionKey : Type 0 where
  client : String → VersionKey
  reprocess : Uuid → VersionKey

pub record DocumentVersion : Type 0 where
  pub id : Uuid
  pub tenant_id : Uuid
  pub collection_id : Uuid
  pub document_id : Uuid
  pub version_number : ℕ
  pub idempotency_key : VersionKey
  pub content_sha256 : String
  pub size_bytes : ℕ
  pub page_count : Option ℕ
  pub detected_mime : Option String
  pub object_key : String
  pub source_uri_policy : String
  pub pipeline_profile : String
  pub state : VersionState
  pub state_revision : ℕ
  pub progress_completed : ℤ
  pub progress_total : ℤ
  pub terminal_reason_code : Option String
  pub reprocessed_from_version_id : Option Uuid

-- The `event_key` of a transition event.
pub data EventKey : Type 0 where
  upload_validating upload_rejected upload_queued : EventKey
  lifecycle : (request_id : Uuid) → EventKey
  worker_parsing : (job_id : Uuid) (attempt : ℕ) → EventKey
  worker_state : (job_id : Uuid) → VersionState → EventKey
  worker_terminal : (job_id : Uuid) (reason : String) → EventKey
  worker_exhausted : (job_id : Uuid) → EventKey
  ocr_normalizing ocr_chunking : (job_id : Uuid) → EventKey
  worker_promote : (job_id : Uuid) → EventKey

pub data Actor : Type 0 where
  api : (subject : String) → Actor
  worker : (worker_id : String) → Actor

pub record TransitionEvent : Type 0 where
  pub tenant_id : Uuid
  pub collection_id : Uuid
  pub document_version_id : Uuid
  pub idempotency_key : EventKey
  pub from_state : VersionState
  pub to_state : VersionState
  pub from_revision : ℕ
  pub to_revision : ℕ
  pub operation : Operation
  pub actor : Actor

-- A deployment of the search index. A value that exists has passed `__post_init__`.
pub record SearchTarget : Type 0 where
  pub name : String
  pub version : String

pub record IngestionJob : Type 0 where
  pub id : Uuid
  pub tenant_id : Uuid
  pub collection_id : Uuid
  pub document_version_id : Uuid
  pub stage : IngestionStage
  pub state : JobState
  pub generation : ℕ
  pub attempt_count : ℕ
  pub max_attempts : ℕ
  pub lease_owner : Option String
  pub lease_expires_at : Option ℕ
  pub retry_at : Option ℕ
  pub terminal_reason_code : Option String
  pub lifecycle_request_id : Option Uuid
  -- `publication_target_name`, `publication_target_version` and `publication_target_attempt`, which
  -- are null together.
  pub publication_target : Option (SearchTarget × ℕ)

pub data AttemptOutcome : Type 0 where
  succeeded retryable_failure permanent_failure cancelled lease_expired : AttemptOutcome

pub record JobAttempt : Type 0 where
  pub tenant_id : Uuid
  pub collection_id : Uuid
  pub job_id : Uuid
  pub attempt_number : ℕ
  pub worker_id : String
  pub finished_at : Option ℕ
  pub outcome : Option AttemptOutcome
  pub error_class : Option String
  pub reason_code : Option String

pub data RequestState : Type 0 where
  pending running succeeded failed : RequestState

pub record LifecycleRequest : Type 0 where
  pub id : Uuid
  pub tenant_id : Uuid
  pub collection_id : Uuid
  pub document_version_id : Uuid
  pub source_document_version_id : Uuid
  pub request_type : Operation
  pub idempotency_key : String
  pub requested_by : String
  pub state : RequestState

pub data ArtifactType : Type 0 where
  original_pdf inspection_report extracted_pages layout_blocks : ArtifactType
  ocr_result normalized_document chunk_manifest index_manifest : ArtifactType

pub record Artifact : Type 0 where
  pub id : Uuid
  pub tenant_id : Uuid
  pub collection_id : Uuid
  pub document_version_id : Uuid
  pub source_artifact_id : Option Uuid
  pub artifact_type : ArtifactType
  pub object_key : String
  pub generator_name : String
  pub generator_version : String
  pub checksum_sha256 : String
  pub size_bytes : ℕ
  pub search_target : Option SearchTarget

-- A row of `chunks`.
pub record StoredChunk : Type 0 where
  pub id : Uuid
  pub tenant_id : Uuid
  pub collection_id : Uuid
  pub document_version_id : Uuid
  pub source_artifact_id : Uuid
  pub ordinal : ℕ
  pub page_start : ℕ
  pub page_end : ℕ
  pub content_sha256 : String
  pub content_object_key : String
  pub token_count : ℕ

pub record ChunkEmbedding : Type 0 where
  pub id : Uuid
  pub tenant_id : Uuid
  pub collection_id : Uuid
  pub document_version_id : Uuid
  pub chunk_id : Uuid
  pub provider : String
  pub model_name : String
  pub model_version : String
  pub dimensions : ℕ
  pub vector_object_key : String
  pub vector_checksum_sha256 : String

pub data PublicationKind : Type 0 where
  lexical vector : PublicationKind

-- `publication_job_id` and `publication_attempt`, which are null together.
pub record PublicationAttempt : Type 0 where
  pub job_id : Uuid
  pub attempt_number : ℕ

pub record IndexPublication : Type 0 where
  pub id : Uuid
  pub tenant_id : Uuid
  pub collection_id : Uuid
  pub document_version_id : Uuid
  pub chunk_id : Uuid
  pub publication_kind : PublicationKind
  pub target : SearchTarget
  pub external_record_id : String
  pub published_at : ℕ
  pub deleted_at : Option ℕ
  pub publication : Option PublicationAttempt
  pub activated_at : Option ℕ

pub data CleanupState : Type 0 where
  pending running deleted failed : CleanupState

-- A row of `search_cleanup_entries`.
pub record SearchCleanup : Type 0 where
  pub id : Uuid
  pub tenant_id : Uuid
  pub collection_id : Uuid
  pub document_version_id : Uuid
  pub activation_version_id : Option Uuid
  pub publication : Option PublicationAttempt
  pub target : SearchTarget
  pub state : CleanupState
  pub attempt_count : ℕ
  pub lease_owner : Option String
  pub lease_expires_at : Option ℕ
  pub last_reason_code : Option String
  pub deleted_at : Option ℕ
  pub updated_at : ℕ

pub record Store : Type 0 where
  pub tenants : List Uuid
  pub collections : List Collection
  pub memberships : List Membership
  pub documents : List SourceDocument
  pub versions : List DocumentVersion
  pub events : List TransitionEvent
  pub jobs : List IngestionJob
  pub attempts : List JobAttempt
  pub requests : List LifecycleRequest
  pub artifacts : List Artifact
  pub chunks : List StoredChunk
  pub embeddings : List ChunkEmbedding
  pub publications : List IndexPublication
  pub cleanups : List SearchCleanup
