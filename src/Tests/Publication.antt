-- ===== src/Tests/Publication.antt =====
-- A version whose chunks are to be embedded, and the claim of the job.
use atlas_rag.Tests.Registration.{version}
use atlas_rag.Tests.Ingestion.{worker, settings, attempt}
use atlas_rag.Database.{DocumentVersion, IngestionJob, Uuid, Store, ArtifactType, Artifact}
use atlas_rag.Common.Result.{Result}
use atlas_rag.Ingestion.Publication.{
  ClaimedPublicationJob, claim_publication, publication_row, normalized_source, is_artifact_of,
  claim_publication_row, take_publication_job, claimed_publication,
}
use atlas_rag.Common.{◌≤◌, ◌∷◌, none, String, [], Option, some, arith, find, any}
use atlas_rag.Database.Session.{ServiceError}
use atlas_rag.Catalog.Versions.{find_version}
use atlas_rag.Ingestion.Publication.Delay.{publication_retry_delay, publication_retry_delay-bounds}
use atlas_rag.Catalog.Enums.{VersionState, IngestionStage, JobState, same_stage}
use atlas_rag.Ingestion.NativeJobs.{find_job}
use atlas_rag.Catalog.Operations.{same_type}
use atlas_rag.Catalog.Reprocessing.{lineage}

abbrev embedding : DocumentVersion
embedding = record version { state = VersionState.embedding; state_revision = 7 }

abbrev pub job : IngestionJob
job = record {
  id = 40;
  tenant_id = 1;
  collection_id = 2;
  document_version_id = 7;
  stage = IngestionStage.embed;
  state = JobState.pending;
  generation = 0;
  attempt_count = 0;
  max_attempts = 3;
  lease_owner = none;
  lease_expires_at = none;
  retry_at = none;
  terminal_reason_code = none;
  lifecycle_request_id = none;
  publication_target = none;
}

artifact : Uuid → ArtifactType → (generator_name : String) → Artifact
artifact k artifact_type generator_name = record {
  id = k;
  tenant_id = 1;
  collection_id = 2;
  document_version_id = 7;
  source_artifact_id = none;
  artifact_type = artifact_type;
  object_key = "key";
  generator_name = generator_name;
  generator_version = "v1";
  checksum_sha256 = "bb";
  size_bytes = 10;
  search_target = none;
}

abbrev chunked : Store
chunked = record {
  tenants = 1 ∷ [];
  collections = [];
  memberships = [];
  documents = [];
  versions = embedding ∷ [];
  events = [];
  jobs = job ∷ [];
  attempts = [];
  requests = [];
  artifacts =
      artifact 62 ArtifactType.chunk_manifest "chunker"
      ∷ artifact 61 ArtifactType.normalized_document "native-parser"
      ∷ artifact 60 ArtifactType.original_pdf "intake-api"
      ∷ [];
  chunks = [];
  embeddings = [];
  publications = [];
  cleanups = [];
}

publication : Unit {0}
unfolding worker claim_publication publication_row find_job find_version find any normalized_source
    lineage is_artifact_of same_type claim_publication_row take_publication_job claimed_publication
    artifact same_stage
publication = tt

abbrev granted : Result ServiceError (Option ClaimedPublicationJob × Store)
granted = claim_publication 1 7 40 "worker-1" 100 30 chunked

abbrev after_claim : Store
after_claim = record chunked {
  jobs =
      (record job {
        state = JobState.running;
        attempt_count = 1;
        lease_owner = some "worker-1";
        lease_expires_at = some 130;
      })
      ∷ [];
  attempts =
      (record {
        tenant_id = 1;
        collection_id = 2;
        job_id = 40;
        attempt_number = 1;
        worker_id = "worker-1";
        finished_at = none;
        outcome = none;
        error_class = none;
        reason_code = none;
      })
      ∷ [];
}

abbrev claimed_job : ClaimedPublicationJob
claimed_job = record {
  native = record (attempt 1) { size_bytes = 400 };
  stage = IngestionStage.embed;
  source_document_version_id = 7;
  normalized_document_version_id = 7;
  normalized_artifact_id = 61;
  normalized_object_key = "key";
  normalized_checksum_sha256 = "bb";
  normalized_generator_version = "v1";
  chunk_object_key = some "key";
  chunk_checksum_sha256 = some "bb";
  chunk_generator_version = some "v1";
  embedding_object_key = none;
  embedding_checksum_sha256 = none;
  embedding_generator_version = none;
}

publication_retry_delay-bounds_example :
    (1 ≤ publication_retry_delay settings claimed_job)
    × (publication_retry_delay settings claimed_job ≤ 900)
    × (publication_retry_delay settings claimed_job
        ≤ publication_retry_delay settings (record claimed_job { native = attempt 3 }))
publication_retry_delay-bounds_example =
    publication_retry_delay-bounds settings claimed_job (record claimed_job { native = attempt 3 })
      (omega arith) (omega arith) (omega arith)
