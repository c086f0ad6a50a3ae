-- ===== src/System.antt =====
-- app/services: the transactions of the API and of the workers, one after another. Each locks the
-- rows that it moves, so an interleaving of requests and workers is a sequence of transactions.
pub mod Audited
pub mod Joined
use atlas_rag.Database.{Store, Principal, Uuid, SearchTarget}
use atlas_rag.Database.Session.{Session, transaction, ◌>>=◌, pure, modify}
use atlas_rag.Common.{List, ◌∷◌, ℕ, [], String, Bool, Option}
use atlas_rag.Catalog.Registration.{
  CollectionRequest, Registration, create_collection, register_document,
}
use atlas_rag.Catalog.Operations.{Ids, complete_upload}
use atlas_rag.Catalog.StateMachine.{Operation}
use atlas_rag.Ingestion.NativeJobs.Fence.{Ending, end_attempt}
use atlas_rag.Ingestion.NativeJobs.{ClaimedNativeJob, PublishedArtifact}
use atlas_rag.Ingestion.Ocr.{ClaimedOcrJob, claim_ocr, succeed_ocr}
use atlas_rag.Catalog.Lifecycle.{lifecycle_request}
use atlas_rag.Ingestion.NativeJobs.Claim.{claim}
use atlas_rag.Ingestion.NativeJobs.Successor.{defer_job_dispatch}
use atlas_rag.Ingestion.Publication.{claim_publication, ClaimedPublicationJob}
use atlas_rag.Ingestion.Chunking.{ChunkRecord}
use atlas_rag.Ingestion.Publication.Artifacts.{
  succeed_chunk, EmbeddingModel, succeed_embedding, EmbeddingRecord,
}
use atlas_rag.Ingestion.Publication.Index.{begin_index_attempt, prepare_index, PublicationRecord}
use atlas_rag.Ingestion.Publication.Activation.{activate}
use atlas_rag.Ingestion.Search.{SearchCleanupClaim, claim_cleanup, complete_cleanup, retry_cleanup}
use atlas_rag.Ingestion.Search.Activations.{PendingSearchActivation, complete_activation}

-- A transaction with its arguments: what a request or a worker asks for.
pub data Command : Type 0 where
  creation :
      Principal → CollectionRequest → (upload_max_bytes : ℕ) → (collection_id : Uuid) → Command
  registration :
      Principal
      → (collection_id version_id document_id : Uuid) → (idempotency_key : String) → Registration
      → Command
  completion :
      Principal
      → Uuid
      → Ids
      → (valid : Bool) → (reason_code : Option String) → (content_type : String)
      → (job_max_attempts : ℕ) → Command
  request :
      Principal
      → Uuid
      → Operation
      → (idempotency_key : String) → (now job_max_attempts : ℕ) → (pipeline_profile : Option String)
      → Ids
      → Command
  claiming :
      (tenant_id version_id job_id : Uuid)
      → (worker_id : String) → (now lease_duration : ℕ) → Command
  ending : Ending → ClaimedNativeJob → (worker_id : String) → (now : ℕ) → Command
  ocr_claiming :
      (tenant_id version_id job_id : Uuid)
      → (worker_id : String) → (now lease_duration : ℕ) → Command
  ocr_success :
      ClaimedOcrJob
      → (worker_id : String) → List (Uuid × PublishedArtifact)
      → (max_attempts : ℕ) → (next_job_id : Uuid) → (now : ℕ) → Command
  publication_claiming :
      (tenant_id version_id job_id : Uuid)
      → (worker_id : String) → (now lease_duration : ℕ) → Command
  deferral : (tenant_id version_id job_id : Uuid) → (retry_delay now : ℕ) → Command
  chunk_success :
      ClaimedPublicationJob
      → (worker_id : String) → PublishedArtifact
      → List ChunkRecord
      → (max_attempts : ℕ) → (artifact_id next_job_id : Uuid) → (now : ℕ) → Command
  embedding_success :
      ClaimedPublicationJob
      → (worker_id : String) → PublishedArtifact
      → EmbeddingModel
      → List (Uuid × EmbeddingRecord)
      → (max_attempts : ℕ) → (artifact_id next_job_id : Uuid) → (now : ℕ) → Command
  index_fencing :
      ClaimedPublicationJob
      → (worker_id : String) → SearchTarget
      → (cleanup_id : ℕ → Uuid) → (now : ℕ) → Command
  index_publishing :
      ClaimedPublicationJob
      → (worker_id : String) → PublishedArtifact
      → SearchTarget
      → List (Uuid × PublicationRecord)
      → (artifact_id : Uuid) → (now : ℕ) → Command
  activating :
      ClaimedPublicationJob
      → (worker_id : String) → SearchTarget
      → (expected_records : ℕ) → (cleanup_id : ℕ → Uuid) → (now : ℕ) → Command
  cleanup_claiming :
      (worker_id : String)
      → (now lease_duration max_attempts : ℕ)
      → (activation_version_id document_version_id : Option Uuid) → Command
  cleanup_completion : SearchCleanupClaim → (worker_id : String) → (now : ℕ) → Command
  cleanup_retry :
      SearchCleanupClaim
      → (worker_id : String) → (max_attempts : ℕ) → (reason_code : String) → (now : ℕ) → Command
  activation_completion : PendingSearchActivation → (now : ℕ) → Command

abbrev pub done : {A : Type 0} → Session A → Session (Unit {0})
done m = m >>= λ _. pure tt

-- The block of a transaction.
unfoldable pub block : Command → Session (Unit {0})
block (Command.creation p values most k) = done (create_collection p values most k)
block (Command.registration p c k fresh key values) =
    done (register_document p c k fresh key values)
block (Command.completion p k ids valid reason_code content_type n) =
    done (complete_upload p k ids valid reason_code content_type n)
block (Command.request p k operation key now n profile ids) =
    done (lifecycle_request p k operation key now n profile ids)
block (Command.claiming t v k worker_id now d) = done (claim t v k worker_id now d)
block (Command.ending e job worker_id now) = end_attempt e job worker_id now
block (Command.ocr_claiming t v k worker_id now d) = done (claim_ocr t v k worker_id now d)
block (Command.ocr_success job worker_id artifacts n next now) =
    done (succeed_ocr job worker_id artifacts n next now)
block (Command.publication_claiming t v k worker_id now d) =
    done (claim_publication t v k worker_id now d)
block (Command.deferral t v k delay now) = defer_job_dispatch t v k delay now
block (Command.chunk_success job worker_id artifact chunks n k next now) =
    done (succeed_chunk job worker_id artifact chunks n k next now)
block (Command.embedding_success job worker_id artifact model records n k next now) =
    done (succeed_embedding job worker_id artifact model records n k next now)
block (Command.index_fencing job worker_id target ids now) =
    begin_index_attempt job worker_id target ids now
block (Command.index_publishing job worker_id artifact target records k now) =
    done (prepare_index job worker_id artifact target records k now)
block (Command.activating job worker_id target expected ids now) =
    done (activate job worker_id target expected ids now)
block (Command.cleanup_claiming worker_id now d n activation version) =
    done (claim_cleanup worker_id now d n activation version)
block (Command.cleanup_completion claim worker_id now) =
    modify (complete_cleanup claim worker_id now)
block (Command.cleanup_retry claim worker_id n reason_code now) =
    modify (retry_cleanup claim worker_id n reason_code now)
block (Command.activation_completion activation now) = modify (complete_activation activation now)

-- The store after a transaction, committed or rolled back.
unfoldable pub execute : Command → Store → Store
execute c s = (transaction (block c) s).1

-- The store after transactions, the first one first.
unfoldable pub execute_all : List Command → Store → Store
execute_all [] s = s
execute_all (c ∷ commands) s = execute_all commands (execute c s)

-- The database after the migrations, with its tenants.
abbrev pub new_database : List Uuid → Store
new_database tenants = record {
  tenants = tenants;
  collections = [];
  memberships = [];
  documents = [];
  versions = [];
  events = [];
  jobs = [];
  attempts = [];
  requests = [];
  artifacts = [];
  chunks = [];
  embeddings = [];
  publications = [];
  cleanups = [];
}
