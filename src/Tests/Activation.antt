-- ===== src/Tests/Activation.antt =====
-- The activation of a version that replaces another one.
use atlas_rag.Common.{
  ℕ, List, ◌≡◌, some, ◌∷◌, find, arith, String, [], refl, suc, Option, none, any, false,
}
use atlas_rag.Catalog.StateMachine.Edges.{embed, index, publish}
use atlas_rag.Tests.Pipeline.{pipeline, stage_job, target, ids_from}
use atlas_rag.Tests.Publication.{job}
use atlas_rag.Tests.Catalog.{version, store_of}
use native.Mathlib.Decide.{ℕ_discrete}
use atlas_rag.Database.{
  DocumentVersion, TransitionEvent, IngestionJob, Uuid, Store, StoredChunk, ChunkEmbedding,
  PublicationKind, ArtifactType, EventKey, Actor, IndexPublication, SearchTarget, Artifact,
}
use atlas_rag.Catalog.Enums.{VersionState, IngestionStage, JobState}
use atlas_rag.Ingestion.Publication.{ClaimedPublicationJob}
use atlas_rag.Catalog.Transitions.Audit.{trail_of, Trail, step, IsAudited, reprocessed, some-eq}
use atlas_rag.Catalog.Versions.{find_version}
use atlas_rag.Ingestion.Publication.Activation.Revoked.{HasForeignKeys}
use atlas_rag.Common.Result.{Result, ok}
use atlas_rag.Ingestion.Publication.Activation.Activated.{IsActivated, activate-IsActivated}
use atlas_rag.Catalog.StateMachine.{Operation}
use atlas_rag.Database.Session.{ServiceError}
use atlas_rag.Ingestion.Search.{SearchTargetPublication}
use atlas_rag.Ingestion.Publication.Activation.{activate}
use atlas_rag.Catalog.StateMachine.Edges.{advances, publish}
use atlas_rag.Ingestion.Search.Activations.Waiting.{is_activation_of, activate_waits}
use atlas_rag.Ingestion.Search.Activations.{pending_activations}

abbrev made : DocumentVersion
made = record version {
  id = 50;
  state = VersionState.indexing;
  state_revision = 3;
  reprocessed_from_version_id = some 7;
}

abbrev source : DocumentVersion
source = record version { state = VersionState.ready; state_revision = 4 }

abbrev event :
    (version_id revision : ℕ) → (s t : VersionState) → Operation → EventKey → TransitionEvent
event version_id revision s t operation key = record {
  tenant_id = 1;
  collection_id = 2;
  document_version_id = version_id;
  idempotency_key = key;
  from_state = s;
  to_state = t;
  from_revision = revision;
  to_revision = suc revision;
  operation = operation;
  actor = Actor.worker "worker-1";
}

abbrev moved_to : (version_id job_id revision : ℕ) → (s t : VersionState) → TransitionEvent
moved_to version_id job_id revision s t =
    event version_id revision s t Operation.advance (EventKey.worker_state job_id t)

abbrev began : (version_id : ℕ) → TransitionEvent
began version_id =
    event version_id 0 VersionState.queued VersionState.chunking Operation.reprocess
      (EventKey.lifecycle version_id)

abbrev index_run : IngestionJob
index_run = record job {
  id = 46;
  document_version_id = 50;
  stage = IngestionStage.index;
  state = JobState.running;
  attempt_count = 1;
  lease_owner = some "worker-1";
  lease_expires_at = some 170;
}

abbrev index_job : ClaimedPublicationJob
index_job = stage_job 46 50 7 IngestionStage.index

abbrev chunk_of : (chunk_id version_id : Uuid) → StoredChunk
chunk_of chunk_id version_id = record {
  id = chunk_id;
  tenant_id = 1;
  collection_id = 2;
  document_version_id = version_id;
  source_artifact_id = 62;
  ordinal = 0;
  page_start = 1;
  page_end = 1;
  content_sha256 = "cc";
  content_object_key = "chunks";
  token_count = 1;
}

abbrev embedding_of : (embedding_id chunk_id version_id : Uuid) → ChunkEmbedding
embedding_of embedding_id chunk_id version_id = record {
  id = embedding_id;
  tenant_id = 1;
  collection_id = 2;
  document_version_id = version_id;
  chunk_id = chunk_id;
  provider = "fastembed";
  model_name = "small";
  model_version = "1";
  dimensions = 3;
  vector_object_key = "vectors";
  vector_checksum_sha256 = "dd";
}

abbrev publication_of :
    (publication_id chunk_id version_id job_id : Uuid)
    → PublicationKind
    → (external_record_id target_version : String) → (activated_at : Option ℕ) → IndexPublication
publication_of publication_id chunk_id version_id job_id kind external_record_id target_version
      activated_at =
    record {
      id = publication_id;
      tenant_id = 1;
      collection_id = 2;
      document_version_id = version_id;
      chunk_id = chunk_id;
      publication_kind = kind;
      target = target target_version;
      external_record_id = external_record_id;
      published_at = 100;
      deleted_at = none;
      publication = some (record { job_id = job_id; attempt_number = 1 });
      activated_at = activated_at;
    }

abbrev manifest : Uuid → ArtifactType → String → Option SearchTarget → Artifact
manifest k artifact_type generator_name search_target = record {
  id = k;
  tenant_id = 1;
  collection_id = 2;
  document_version_id = 50;
  source_artifact_id = none;
  artifact_type = artifact_type;
  object_key = "key";
  generator_name = generator_name;
  generator_version = "v1";
  checksum_sha256 = "bb";
  size_bytes = 10;
  search_target = search_target;
}

abbrev indexed : Store
indexed = record {
  tenants = 1 ∷ [];
  collections = [];
  memberships = [];
  documents = [];
  versions = made ∷ source ∷ [];
  events =
      moved_to 50 45 2 VersionState.embedding VersionState.indexing
      ∷ moved_to 50 44 1 VersionState.chunking VersionState.embedding
      ∷ began 50
      ∷ moved_to 7 43 3 VersionState.indexing VersionState.ready
      ∷ moved_to 7 42 2 VersionState.embedding VersionState.indexing
      ∷ moved_to 7 41 1 VersionState.chunking VersionState.embedding
      ∷ began 7
      ∷ [];
  jobs = index_run ∷ [];
  attempts = [];
  requests = [];
  artifacts =
      manifest 67 ArtifactType.index_manifest "opensearch" (some (target "2"))
      ∷ manifest 66 ArtifactType.chunk_manifest "page-token-window" none
      ∷ [];
  chunks = chunk_of 71 50 ∷ chunk_of 70 7 ∷ [];
  embeddings = embedding_of 81 71 50 ∷ embedding_of 80 70 7 ∷ [];
  publications =
      publication_of 93 71 50 46 PublicationKind.vector "v" "2" none
      ∷ publication_of 92 71 50 46 PublicationKind.lexical "l" "2" none
      ∷ publication_of 91 70 7 43 PublicationKind.vector "v" "1" (some 110)
      ∷ publication_of 90 70 7 43 PublicationKind.lexical "l" "1" (some 110)
      ∷ [];
  cleanups = [];
}

made-Trail : Trail 3 VersionState.indexing (trail_of 50 indexed.events)
unfolding trail_of
made-Trail =
    step
      (step (reprocessed (began 50) refl refl refl refl)
        (moved_to 50 44 1 VersionState.chunking VersionState.embedding) refl refl refl refl
        (advances embed))
      (moved_to 50 45 2 VersionState.embedding VersionState.indexing) refl refl refl refl
      (advances index)

source-Trail : Trail 4 VersionState.ready (trail_of 7 indexed.events)
unfolding trail_of
source-Trail =
    step
      (step
        (step (reprocessed (began 7) refl refl refl refl)
          (moved_to 7 41 1 VersionState.chunking VersionState.embedding) refl refl refl refl
          (advances embed))
        (moved_to 7 42 2 VersionState.embedding VersionState.indexing) refl refl refl refl
        (advances index))
      (moved_to 7 43 3 VersionState.indexing VersionState.ready) refl refl refl refl
      (advances publish)

indexed-IsAudited : IsAudited indexed
unfolding find_version find trail_of
indexed-IsAudited = record {
  trail = λ k v h. elim (ℕ_discrete k 50) [
    | yes same ↦ let is_made : made ≡ v = some-eq (rw same at h) in rw (same, ← is_made) made-Trail
    | no other ↦ elim (ℕ_discrete k 7) [
      | yes same ↦
          let is_source : source ≡ v = some-eq (rw same at h) in rw (same, ← is_source) source-Trail
      | no neither ↦ absurd (ground arith)
    ]
  ];
  no_orphan = λ k h. elim (ℕ_discrete k 50) [
    | yes same ↦ let made_there = rw same at h in absurd (cc)
    | no other ↦ elim (ℕ_discrete k 7) [
      | yes same ↦ let source_there = rw same at h in absurd (cc)
      | no neither ↦ ground arith
    ]
  ];
}

indexed-HasForeignKeys : HasForeignKeys indexed
indexed-HasForeignKeys = omega arith

abbrev activated : Result ServiceError (List SearchTargetPublication × Store)
activated = activate index_job "worker-1" (target "2") 1 (ids_from 500) 160 indexed

abbrev pub after_activation : Store
after_activation = store_of activated

abbrev retired : List SearchTargetPublication
retired =
    (record {
      target = target "1";
      record_count = 1;
      publication = some (record { job_id = 43; attempt_number = 1 });
    })
    ∷ []

is_replaced : activated ≡ ok (retired, after_activation)
unfolding pipeline
is_replaced = refl

activate-IsActivated_example :
    IsActivated index_job (target "2") 1 retired (ids_from 500) 160 indexed after_activation
activate-IsActivated_example =
    activate-IsActivated index_job "worker-1" (target "2") 1 (ids_from 500) 160 indexed
      after_activation retired indexed-IsAudited indexed-HasForeignKeys is_replaced

activate_waits_example :
    any
      (λ a. is_activation_of index_job.native a.tenant_id a.collection_id a.document_version_id)
      (pending_activations 10 none none after_activation)
    ≡ false
unfolding pipeline
activate_waits_example =
    activate_waits index_job "worker-1" (target "2") 1 (ids_from 500) 160 indexed after_activation
      retired 10 none none indexed-IsAudited indexed-HasForeignKeys tt refl is_replaced
