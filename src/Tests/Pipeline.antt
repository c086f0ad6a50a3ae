-- ===== src/Tests/Pipeline.antt =====
-- A document from its registration until it is searchable, and its replacement by a reprocessing.
use atlas_rag.Catalog.StateMachine.{is_complete}
use atlas_rag.Tests.Ingestion.{worker, attempt}
use atlas_rag.Tests.Registration.{registration, owner, values}
use atlas_rag.Common.{
  ℕ, String, List, Option, ◌+◌, ◌≡◌, none, [], ◌∷◌, ◌++◌, some, true, sum_if, count_if, refl,
  filter, group_by,
}
use atlas_rag.Catalog.Registration.{CollectionRequest, create_collection, same_collection}
use atlas_rag.Database.{ArtifactType, Uuid, Store, SearchTarget, DocumentVersion, PublicationKind}
use atlas_rag.Ingestion.Publication.Artifacts.{EmbeddingModel}
use atlas_rag.Ingestion.Publication.{ClaimedPublicationJob}
use atlas_rag.System.{execute_all, Command, new_database, execute, block}
use atlas_rag.Catalog.Versions.{find_version}
use atlas_rag.Ingestion.NativeJobs.{PublishedArtifact, DocumentRoute}
use atlas_rag.Catalog.Enums.{IngestionStage, VersionState}
use atlas_rag.Ingestion.Chunking.{ChunkRecord}
use atlas_rag.Database.Session.{transaction}
use atlas_rag.Ingestion.NativeJobs.Fence.{Ending}
use atlas_rag.Ingestion.NativeJobs.{
  find_job, update_job, update_attempts, finish_attempt, worker_snapshot, worker_moved,
  worker_change, store_worker_transition, worker_transition,
}
use atlas_rag.Ingestion.NativeJobs.Claim.{
  is_original_of, native_row, is_finished, is_held, lease_is_live, released, cancel_job,
  exhaust_job, expire_attempt, held_by, new_attempt, insert_attempt, claimed, start_parsing,
  begin_parsing, take_job, claim_row, claim,
}
use atlas_rag.Ingestion.NativeJobs.Finish.{
  insert_artifacts, owns_attempt, locked_row, locked_job_version, next_job, create_next_job,
  set_page_count, advance_route, end_job, close_success, store_success, succeed,
  finish_lifecycle_request, close_failure, store_failure, fail_permanently, close_retry,
  schedule_retry,
}
use atlas_rag.Ingestion.Publication.{
  is_artifact_of, normalized_source, publication_row, claimed_publication, take_publication_job,
  claim_publication_row, claim_publication,
}
use atlas_rag.Ingestion.Publication.Artifacts.{
  derived_artifact, is_chunk_manifest, stored_chunk, insert_chunk, insert_chunks, is_original_run,
  advance_stage, store_chunk_stage, succeed_chunk, chunk_artifact, new_embedding, is_embedding_of,
  is_chunk_at, insert_embedding, insert_embeddings, embedding_count, require_count,
  store_embedding_stage, succeed_embedding,
}
use atlas_rag.Ingestion.Publication.Evidence.{
  joins_chunk, counts_embedding, counts_publication, is_index_manifest, evidence_of, counts_agree,
  require_publication_evidence,
}
use atlas_rag.Ingestion.Publication.Index.{
  index_cleanup_complete, is_live_of, same_group, count_chunks, is_stale, published_group,
  retired_groups, is_retired, revoke, revoke_stale, fence_target, begin_index_attempt,
  new_publication, has_place_of, has_record_of, is_active_beside, republished, upsert_publication,
  upsert_publications, store_index, prepare_index,
}
use atlas_rag.Ingestion.Publication.Activation.{
  source_version, is_source_row, in_group_as, check_source_group, check_source_groups,
  conflicts_with, check_source_rows, active_source, lock_index_for_activation, superseded_version,
  is_of_source, revoke_source, promotion_event, supersede_source_version, promote, close_index,
  finalize_index, activate,
}
use atlas_rag.Ingestion.Search.{
  same_target, same_attempt, same_id, is_cleanup_of, new_cleanup, insert_cleanup, enqueue_cleanups,
  is_candidate, older, oldest, update_cleanup, exhausted_cleanup, exhaust_cleanup, leased_cleanup,
  cleanup_claim, claim_cleanup, owns_cleanup, deleted_cleanup, complete_cleanup, retried_cleanup,
  retry_cleanup,
}
use atlas_rag.Ingestion.Search.Activations.{
  is_searchable_version, blocks_activation, lacks_embedding, is_manifest_of, is_pending_row,
  same_activation, activates_kind, is_published_whole, first_published, is_before, insert_ordered,
  ordered, pending_activation, pending_activations, is_activated_by, complete_activation,
}
use atlas_rag.Catalog.Reprocessing.{
  lineage, listed, source_lineage, deletion_in_progress, active_descendant, normalized_exists,
  of_document, max_version_number, clashes, insert_version, reprocessed_version, reprocess_event,
  create_reprocessed_version,
}
use atlas_rag.Catalog.Lifecycle.{
  replay_stage, operation_eq, is_pending, same_request, is_cancellable, is_open_attempt_of,
  cancel_active_jobs, has_active_deletion_job, replay_request, insert_request, target_version,
  request_state, perform, request_row, new_request, lifecycle_request,
}

abbrev request : CollectionRequest
request = record {
  name = "manuals";
  retention_days = 30;
  document_quota = 2;
  storage_quota_bytes = 900;
}

abbrev published : ArtifactType → (generator_name object_key : String) → PublishedArtifact
published artifact_type generator_name object_key = record {
  artifact_type = artifact_type;
  object_key = object_key;
  generator_name = generator_name;
  generator_version = "v1";
  checksum_sha256 = object_key;
  size_bytes = 10;
}

-- The claim of a job of a version that is made from another one, or from itself.
abbrev pub stage_job : (job_id version_id source_id : Uuid) → IngestionStage → ClaimedPublicationJob
stage_job job_id version_id source_id stage = record {
  native = record (attempt 1) { id = job_id; document_version_id = version_id; size_bytes = 400 };
  stage = stage;
  source_document_version_id = source_id;
  normalized_document_version_id = 7;
  normalized_artifact_id = 61;
  normalized_object_key = "normalized";
  normalized_checksum_sha256 = "normalized";
  normalized_generator_version = "v1";
  chunk_object_key = none;
  chunk_checksum_sha256 = none;
  chunk_generator_version = none;
  embedding_object_key = none;
  embedding_checksum_sha256 = none;
  embedding_generator_version = none;
}

abbrev chunk : Uuid → ChunkRecord
chunk k = record {
  chunk_id = k;
  ordinal = 0;
  page_start = 1;
  page_end = 1;
  char_start = 0;
  char_end = 5;
  text = [];
  content_sha256 = "cc";
  token_count = 1;
  block_bounds = [];
}

abbrev model : EmbeddingModel
model = record {
  vector_object_key = "vectors";
  provider = "fastembed";
  model_name = "small";
  model_version = "1";
  dimensions = 3;
}

abbrev pub target : (version : String) → SearchTarget
target version = record { name = "manuals"; version = version }

abbrev pub ids_from : ℕ → ℕ → Uuid
ids_from first n = first + n

-- The chunk, embed and index jobs of a version, up to the activation.
abbrev publication :
    (version_id source_id chunk_job embed_job index_job : Uuid)
    → (first : ℕ) → (chunks vectors records : String) → (index_target : SearchTarget) → List Command
publication v src chunk_job embed_job index_job first chunks vectors records index_target =
    Command.publication_claiming 1 v chunk_job "worker-1" 120 30
    ∷ Command.chunk_success (stage_job chunk_job v src IngestionStage.chunk) "worker-1"
        (published ArtifactType.chunk_manifest "page-token-window" chunks) (chunk first ∷ []) 3
        (first + 1) embed_job 125
    ∷ Command.publication_claiming 1 v embed_job "worker-1" 130 30
    ∷ Command.embedding_success (stage_job embed_job v src IngestionStage.embed) "worker-1"
        (published ArtifactType.index_manifest "fastembed" vectors) model
        ((first + 2, record { chunk_id = first; checksum_sha256 = "dd" }) ∷ []) 3 (first + 3)
        index_job 135
    ∷ Command.publication_claiming 1 v index_job "worker-1" 140 30
    ∷ Command.index_fencing (stage_job index_job v src IngestionStage.index) "worker-1" index_target
        (ids_from (first + 100)) 141
    ∷ Command.index_publishing (stage_job index_job v src IngestionStage.index) "worker-1"
        (published ArtifactType.index_manifest "opensearch" records) index_target
        ((
          first + 4,
          record {
            chunk_id = first;
            publication_kind = PublicationKind.lexical;
            external_record_id = "l";
          },
        )
          ∷ (
            first + 5,
            record {
              chunk_id = first;
              publication_kind = PublicationKind.vector;
              external_record_id = "v";
            },
          )
          ∷ [])
        (first + 6) 142
    ∷ []

abbrev registered : List Command
registered =
    Command.creation owner request 500 2
    ∷ Command.registration owner 2 7 8 "key" values
    ∷ Command.completion owner 7
        (record { request_id = 30; job_id = 40; version_id = 50; artifact_id = 60 }) true none
        "application/pdf" 3
    ∷ Command.claiming 1 7 40 "worker-1" 100 30
    ∷ Command.ending
        (Ending.success DocumentRoute.native 1
          ((61, published ArtifactType.normalized_document "native-parser" "normalized") ∷ []) 3 41)
        (record (attempt 1) { size_bytes = 400 }) "worker-1" 110
    ∷ []

abbrev first_run : List Command
first_run =
    registered ++ publication 7 7 41 42 43 200 "chunks-1" "vectors-1" "records-1" (target "1")

abbrev index_job : ClaimedPublicationJob
index_job = stage_job 43 7 7 IngestionStage.index

abbrev indexed : Store
indexed = execute_all first_run (new_database (1 ∷ []))

unfoldable pub state_of : Option DocumentVersion → Option VersionState
state_of none = none
state_of (some v) = some v.state

unfoldable pub pipeline : Unit {0}
unfolding registration worker execute_all execute block transaction create_collection
    same_collection sum_if count_if filter group_by is_complete state_of find_job update_job
    update_attempts finish_attempt worker_snapshot worker_moved worker_change
    store_worker_transition worker_transition is_original_of native_row is_finished is_held
    lease_is_live released cancel_job exhaust_job expire_attempt held_by new_attempt insert_attempt
    claimed start_parsing begin_parsing take_job claim_row claim insert_artifacts owns_attempt
    locked_row locked_job_version next_job create_next_job set_page_count advance_route end_job
    close_success store_success succeed finish_lifecycle_request close_failure store_failure
    fail_permanently close_retry schedule_retry is_artifact_of normalized_source publication_row
    claimed_publication take_publication_job claim_publication_row claim_publication
    derived_artifact is_chunk_manifest stored_chunk insert_chunk insert_chunks is_original_run
    advance_stage store_chunk_stage succeed_chunk chunk_artifact new_embedding is_embedding_of
    is_chunk_at insert_embedding insert_embeddings embedding_count require_count
    store_embedding_stage succeed_embedding joins_chunk counts_embedding counts_publication
    is_index_manifest evidence_of counts_agree require_publication_evidence index_cleanup_complete
    is_live_of same_group count_chunks is_stale published_group retired_groups is_retired revoke
    revoke_stale fence_target begin_index_attempt new_publication has_place_of has_record_of
    is_active_beside republished upsert_publication upsert_publications store_index prepare_index
    source_version is_source_row in_group_as check_source_group check_source_groups conflicts_with
    check_source_rows active_source lock_index_for_activation superseded_version is_of_source
    revoke_source promotion_event supersede_source_version promote close_index finalize_index
    activate same_target same_attempt same_id is_cleanup_of new_cleanup insert_cleanup
    enqueue_cleanups is_candidate older oldest update_cleanup exhausted_cleanup exhaust_cleanup
    leased_cleanup cleanup_claim claim_cleanup owns_cleanup deleted_cleanup complete_cleanup
    retried_cleanup retry_cleanup is_searchable_version blocks_activation lacks_embedding
    is_manifest_of is_pending_row same_activation activates_kind is_published_whole first_published
    is_before insert_ordered ordered pending_activation pending_activations is_activated_by
    complete_activation lineage listed source_lineage deletion_in_progress active_descendant
    normalized_exists of_document max_version_number clashes insert_version reprocessed_version
    reprocess_event create_reprocessed_version replay_stage operation_eq is_pending same_request
    is_cancellable is_open_attempt_of cancel_active_jobs has_active_deletion_job replay_request
    insert_request target_version request_state perform request_row new_request lifecycle_request
pipeline = tt

is_indexing : state_of (find_version 7 indexed.versions) ≡ some VersionState.indexing
unfolding pipeline state_of
is_indexing = refl

abbrev searchable : Store
searchable =
    execute_all
      (first_run
        ++ (Command.activating index_job "worker-1" (target "1") 1 (ids_from 400) 143 ∷ []))
      (new_database (1 ∷ []))

is_searchable : state_of (find_version 7 searchable.versions) ≡ some VersionState.ready
unfolding pipeline
is_searchable = refl
