-- ===== src/Ingestion/Publication/Index.antt =====
-- app/services/ingestion/publication_repository.py: the fence of an index attempt and the records
-- that it has written to the search index. The groups of a query stand in the order of the table;
-- the order decides only the order of the entries that are enqueued.
use text.Mathlib.Text.{◌==◌ as str_eq}
use atlas_rag.Common.{
  ℕ, List, Option, Bool, some, String, none, not, ◌==◌, ◌&&◌, length, max, filter, update_where,
  if◌then◌else◌, any, same_option, group_by, map, ◌||◌, ◌++◌, ◌∷◌, [],
}
use atlas_rag.Ingestion.Search.{
  same_id, same_target, same_attempt, SearchTargetPublication, enqueue_cleanups, is_deleted_cleanup,
}
use atlas_rag.Database.{
  Uuid, IndexPublication, DocumentVersion, Store, SearchTarget, IngestionJob, PublicationKind,
}
use atlas_rag.Ingestion.NativeJobs.{
  ClaimedNativeJob, PublishedArtifact, update_job, is_null, find_job,
}
use atlas_rag.Ingestion.Publication.{ClaimedPublicationJob}
use atlas_rag.Database.Session.{
  Session, pure, ◌>>=◌, ◌>>◌, gets, raise_when, modify, ServiceError, require, Constraint,
}
use atlas_rag.Catalog.StateMachine.{PublicationEvidence}
use atlas_rag.Ingestion.Publication.Evidence.{
  is_attempt_of, same_kind, require_publication_evidence,
}
use atlas_rag.Ingestion.NativeJobs.Finish.{locked_job_version}
use atlas_rag.Ingestion.Publication.Artifacts.{chunk_artifact, is_chunk_at, derived_artifact}
use atlas_rag.Catalog.Operations.{insert_artifact}

-- `index_cleanup_complete`
unfoldable pub index_cleanup_complete : ClaimedNativeJob → Store → Bool
unfolding same_id
index_cleanup_complete job s = not (
    any
      (λ e.
        (e.tenant_id == job.tenant_id)
        && (e.collection_id == job.collection_id)
        && same_option same_id e.activation_version_id (some job.document_version_id)
        && not (is_deleted_cleanup e.state))
      s.cleanups)

-- The live publications of a version.
unfoldable pub is_live_of :
    (tenant_id collection_id document_version_id : Uuid) → IndexPublication → Bool
is_live_of t c v p =
    (p.tenant_id == t)
    && (p.collection_id == c)
    && (p.document_version_id == v)
    && is_null p.deleted_at

-- `GROUP BY target_name, target_version, publication_job_id, publication_attempt`
unfoldable pub same_group : IndexPublication → IndexPublication → Bool
unfolding same_target same_attempt
same_group a b =
    same_target a.target b.target && same_option same_attempt a.publication b.publication

-- `count(DISTINCT chunk_id)`
unfoldable pub count_chunks : (IndexPublication → Bool) → List IndexPublication → ℕ
unfolding same_id
count_chunks p rows = length (group_by same_id (map (λ r. r.chunk_id) (filter p rows)))

-- What another attempt, or no attempt that is recorded, has published.
unfoldable pub is_stale : ClaimedNativeJob → IndexPublication → Bool
is_stale job p =
    is_live_of job.tenant_id job.collection_id job.document_version_id p
    && not (is_attempt_of job p.publication)

unfoldable pub published_group : List IndexPublication → IndexPublication → SearchTargetPublication
published_group rows g = record {
  target = g.target;
  record_count = max 1 (count_chunks (same_group g) rows);
  publication = g.publication;
}

unfoldable pub retired_groups : ClaimedNativeJob → Store → List SearchTargetPublication
unfolding published_group same_group is_stale
retired_groups job s =
    let rows = filter (is_stale job) s.publications in
    map (published_group rows) (group_by same_group rows)

unfoldable pub is_retired : SearchTargetPublication → SearchTargetPublication → Bool
unfolding same_target same_attempt
is_retired new p =
    same_target p.target new.target && same_option same_attempt p.publication new.publication

-- The target that an earlier attempt of the job had fenced, unless its records are among the rows.
abbrev pub with_prior :
    ClaimedNativeJob
    → Option (SearchTarget × ℕ)
    → List SearchTargetPublication
    → List SearchTargetPublication
with_prior job none retired = retired
with_prior job (some (target, attempt_number)) retired =
    let prior : SearchTargetPublication = record {
      target = target;
      record_count = 1;
      publication = some (record { job_id = job.id; attempt_number = attempt_number });
    } in
    if (attempt_number == job.attempt_number) || any (is_retired prior) retired
    then retired
    else retired ++ (prior ∷ [])

abbrev pub target_of : Option IngestionJob → Option (SearchTarget × ℕ)
target_of none = none
target_of (some j) = j.publication_target

-- `COALESCE(deleted_at, now())`
abbrev pub or_now : (now : ℕ) → Option ℕ → Option ℕ
or_now now none = some now
or_now now (some t) = some t

unfoldable pub revoke : (now : ℕ) → IndexPublication → IndexPublication
revoke now p = record p { deleted_at = or_now now p.deleted_at }

unfoldable pub revoke_stale : ClaimedNativeJob → (now : ℕ) → Store → Store
unfolding is_stale revoke
revoke_stale job now s = record s {
  publications = update_where (is_stale job) (revoke now) s.publications;
}

-- The statements of `begin_index_attempt` after the fence.
unfoldable pub fence_target :
    ClaimedNativeJob
    → SearchTarget
    → (cleanup_id : ℕ → Uuid) → (now : ℕ) → Option IngestionJob
    → Store
    → Store
unfolding retired_groups is_retired revoke_stale
fence_target job target cleanup_id now prior s =
    update_job job.id (λ j. record j { publication_target = some (target, job.attempt_number) })
      (revoke_stale job now (
        enqueue_cleanups cleanup_id job.tenant_id job.collection_id job.document_version_id
          (with_prior job (target_of prior) (retired_groups job s)) (some job.document_version_id)
          now s))

unfoldable pub begin_index_attempt :
    ClaimedPublicationJob
    → (worker_id : String) → SearchTarget
    → (cleanup_id : ℕ → Uuid) → (now : ℕ) → Session (Unit {0})
unfolding fence_target
begin_index_attempt job worker_id target cleanup_id now = do
  locked ← locked_job_version job.native worker_id
  prior ← gets (λ s. find_job job.native.id s.jobs)
  modify (fence_target job.native target cleanup_id now prior)

pub record PublicationRecord : Type 0 where
  pub chunk_id : Uuid
  pub publication_kind : PublicationKind
  pub external_record_id : String

unfoldable pub new_publication :
    ClaimedNativeJob
    → SearchTarget
    → (now : ℕ) → (publication_id : Uuid) → PublicationRecord
    → IndexPublication
new_publication job target now publication_id r = record {
  id = publication_id;
  tenant_id = job.tenant_id;
  collection_id = job.collection_id;
  document_version_id = job.document_version_id;
  chunk_id = r.chunk_id;
  publication_kind = r.publication_kind;
  target = target;
  external_record_id = r.external_record_id;
  published_at = now;
  deleted_at = none;
  publication = some (record { job_id = job.id; attempt_number = job.attempt_number });
  activated_at = none;
}

-- `uq_index_publications_target`
unfoldable pub has_place_of : IndexPublication → IndexPublication → Bool
unfolding same_target
has_place_of new p =
    (p.tenant_id == new.tenant_id)
    && (p.collection_id == new.collection_id)
    && (p.chunk_id == new.chunk_id)
    && same_kind p.publication_kind new.publication_kind
    && same_target p.target new.target

-- `uq_index_publications_external`
unfoldable pub has_record_of : IndexPublication → IndexPublication → Bool
unfolding has_place_of same_target
has_record_of new p =
    not (has_place_of new p)
    && same_target p.target new.target
    && str_eq p.external_record_id new.external_record_id

-- `uq_index_publications_one_active_kind`
unfoldable pub is_active_beside : IndexPublication → IndexPublication → Bool
unfolding has_place_of is_live_of
is_active_beside new p =
    not (has_place_of new p)
    && is_live_of new.tenant_id new.collection_id new.document_version_id p
    && (p.chunk_id == new.chunk_id)
    && same_kind p.publication_kind new.publication_kind

-- `DO UPDATE SET`
unfoldable pub republished : IndexPublication → IndexPublication → IndexPublication
republished new p = record p {
  deleted_at = none;
  published_at = new.published_at;
  external_record_id = new.external_record_id;
  publication = new.publication;
  activated_at = none;
}

unfoldable pub upsert_publication : IndexPublication → Session (Unit {0})
unfolding has_record_of is_active_beside republished
upsert_publication new = do
  recorded ← gets (λ s. any (has_record_of new) s.publications)
  raise_when recorded (ServiceError.integrity Constraint.publication_external)
  active ← gets (λ s. any (is_active_beside new) s.publications)
  raise_when active (ServiceError.integrity Constraint.publication_active)
  present ← gets (λ s. any (has_place_of new) s.publications)
  if present
      then modify (λ s. record s {
        publications = update_where (has_place_of new) (republished new) s.publications;
      })
      else do
        chunked ← gets (λ s.
            any (is_chunk_at new.tenant_id new.collection_id new.document_version_id new.chunk_id)
              s.chunks)
        raise_when (not chunked) (ServiceError.integrity Constraint.chunk_missing)
        modify (λ s. record s { publications = new ∷ s.publications })

-- Each record with the id that is made for its row.
unfoldable pub upsert_publications :
    ClaimedNativeJob
    → SearchTarget
    → (now : ℕ) → List (Uuid × PublicationRecord)
    → Session (Unit {0})
unfolding new_publication
upsert_publications job target now [] = pure tt
upsert_publications job target now ((publication_id, r) ∷ records) =
    upsert_publication (new_publication job target now publication_id r)
    >> upsert_publications job target now records

pub record PreparedIndexPublication : Type 0 where
  pub locked_version : DocumentVersion
  pub evidence : PublicationEvidence
  pub source_targets : List SearchTargetPublication

-- The statements of `prepare_index` after the fence.
unfoldable pub store_index :
    ClaimedNativeJob
    → PublishedArtifact
    → SearchTarget
    → List (Uuid × PublicationRecord)
    → (artifact_id : Uuid) → (now : ℕ) → DocumentVersion
    → Session PreparedIndexPublication
store_index job artifact target records artifact_id now locked = do
  manifest ← gets (chunk_artifact job)
  source ← require manifest ServiceError.no_chunk_artifact
  insert_artifact (derived_artifact artifact_id job artifact (some source.id) (some target))
  upsert_publications job target now records
  evidence ← require_publication_evidence job target
  pure (record { locked_version = locked; evidence = evidence; source_targets = [] })

unfoldable pub prepare_index :
    ClaimedPublicationJob
    → (worker_id : String) → PublishedArtifact
    → SearchTarget
    → List (Uuid × PublicationRecord)
    → (artifact_id : Uuid) → (now : ℕ) → Session PreparedIndexPublication
prepare_index job worker_id artifact target records artifact_id now = do
  locked ← locked_job_version job.native worker_id
  store_index job.native artifact target records artifact_id now locked
