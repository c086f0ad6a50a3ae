-- ===== src/Catalog/Reprocessing.antt =====
-- app/services/catalog/reprocessing_repository.py: the version that a reprocessing makes. The
-- `FOR UPDATE` of the source document makes other requests for it wait, and reads nothing.
use text.Mathlib.Text.{◌==◌ as str_eq}
use atlas_rag.Common.{
  ℕ, zero, suc, Bool, false, not, ◌&&◌, ◌||◌, String, Option, none, some, List, [], ◌∷◌, ◌==◌,
  if◌then◌else◌, any, max,
}
use atlas_rag.Catalog.Enums.{VersionState, IngestionStage, same_stage, is_in}
use atlas_rag.Catalog.StateMachine.{Operation, validate_reprocessing_source, TransitionError}
use atlas_rag.Catalog.Versions.{find_version}
use atlas_rag.Catalog.Transitions.{insert_event, is_unfinished}
use atlas_rag.Catalog.Operations.{Ids, same_type}
use atlas_rag.Database.Session.{
  Session, ServiceError, ConflictReason, Constraint, ◌>>=◌, ◌>>◌, gets, raise_when, modify, lift,
  pure,
}
use atlas_rag.Database.{
  Uuid, Principal, DocumentVersion, VersionKey, Store, TransitionEvent, ArtifactType, EventKey,
  Actor,
}
use atlas_rag.Common.Result.{Result, map_err}
use atlas_rag.Common.Int.{pos}

abbrev onwards :
    (Uuid → List Uuid) → (tenant_id collection_id : Uuid) → Option DocumentVersion → List Uuid
onwards go tenant_id collection_id none = []
onwards go tenant_id collection_id (some v) =
    if (v.tenant_id == tenant_id) && (v.collection_id == collection_id)
    then (v.id ∷ elim v.reprocessed_from_version_id [ none ↦ [] | some parent ↦ go parent ])
    else []

-- `WITH RECURSIVE lineage`: the version and the versions that it was reprocessed from, down to
-- depth 100. The ids on the way are those of the rows found.
unfoldable pub lineage :
    ℕ → (tenant_id collection_id : Uuid) → Uuid → List DocumentVersion → List Uuid
lineage zero tenant_id collection_id k versions = []
lineage (suc depth) tenant_id collection_id k versions =
    onwards (λ parent. lineage depth tenant_id collection_id parent versions) tenant_id
      collection_id (find_version k versions)

-- An id is on the list.
unfoldable pub listed : Uuid → List Uuid → Bool
listed k = any (λ j. j == k)

unfoldable pub source_lineage : Principal → DocumentVersion → Store → List Uuid
source_lineage principal source s =
    lineage 101 principal.tenant_id source.collection_id source.id s.versions

unfoldable pub deletion_in_progress : Principal → DocumentVersion → Store → Bool
deletion_in_progress principal source s =
    any
      (λ j.
        listed j.document_version_id (source_lineage principal source s)
        && (j.tenant_id == principal.tenant_id)
        && (j.collection_id == source.collection_id)
        && same_stage j.stage IngestionStage.delete
        && is_unfinished j.state)
      s.jobs

-- `state NOT IN ('failed', 'cancelled', 'deleted')`
abbrev pub gone_states : List VersionState
gone_states = VersionState.failed ∷ VersionState.cancelled ∷ VersionState.deleted ∷ []

abbrev came_from : Uuid → Option Uuid → Bool
came_from k none = false
came_from k (some j) = j == k

unfoldable pub active_descendant : Principal → DocumentVersion → Store → Bool
active_descendant principal source s =
    any
      (λ v.
        (v.tenant_id == principal.tenant_id)
        && (v.collection_id == source.collection_id)
        && came_from source.id v.reprocessed_from_version_id
        && not (is_in v.state gone_states))
      s.versions

unfoldable pub normalized_exists : Principal → DocumentVersion → Store → Bool
normalized_exists principal source s =
    any
      (λ a.
        (a.tenant_id == principal.tenant_id)
        && (a.collection_id == source.collection_id)
        && listed a.document_version_id (source_lineage principal source s)
        && same_type a.artifact_type ArtifactType.normalized_document)
      s.artifacts

-- The versions of one document.
unfoldable pub of_document : (tenant_id collection_id document_id : Uuid) → DocumentVersion → Bool
of_document tenant_id collection_id document_id v =
    (v.tenant_id == tenant_id)
    && (v.collection_id == collection_id)
    && (v.document_id == document_id)

-- `COALESCE(max(version_number), 0) + 1`
unfoldable pub max_version_number : (DocumentVersion → Bool) → List DocumentVersion → ℕ
max_version_number p [] = 0
max_version_number p (v ∷ versions) =
    let rest = max_version_number p versions in if p v then max v.version_number rest else rest

version_key_eq : VersionKey → VersionKey → Bool
version_key_eq (VersionKey.client a) (VersionKey.client b) = str_eq a b
version_key_eq (VersionKey.reprocess a) (VersionKey.reprocess b) = a == b
version_key_eq _ _ = false

-- The primary key, `uq_document_versions_number` and `uq_document_versions_idempotency`.
unfoldable pub clashes : DocumentVersion → DocumentVersion → Bool
unfolding version_key_eq of_document
clashes new v =
    (v.id == new.id)
    || (of_document new.tenant_id new.collection_id new.document_id v
        && (v.version_number == new.version_number))
    || ((v.tenant_id == new.tenant_id)
        && (v.collection_id == new.collection_id)
        && version_key_eq v.idempotency_key new.idempotency_key)

-- `INSERT INTO document_versions`
unfoldable pub insert_version : DocumentVersion → Session (Unit {0})
insert_version new = do
  taken ← gets (λ s. any (clashes new) s.versions)
  raise_when taken (ServiceError.integrity Constraint.version_key)
  modify (λ s. record s { versions = new ∷ s.versions })

unfoldable pub reprocessed_version :
    Principal
    → DocumentVersion
    → (pipeline_profile : String) → Ids
    → (version_number : ℕ) → DocumentVersion
reprocessed_version principal source pipeline_profile ids version_number = record {
  id = ids.version_id;
  tenant_id = principal.tenant_id;
  collection_id = source.collection_id;
  document_id = source.document_id;
  version_number = version_number;
  idempotency_key = VersionKey.reprocess ids.request_id;
  content_sha256 = source.content_sha256;
  size_bytes = source.size_bytes;
  page_count = source.page_count;
  detected_mime = source.detected_mime;
  object_key = source.object_key;
  source_uri_policy = source.source_uri_policy;
  pipeline_profile = pipeline_profile;
  state = VersionState.chunking;
  state_revision = 1;
  progress_completed = pos 0;
  progress_total = pos 0;
  terminal_reason_code = none;
  reprocessed_from_version_id = some source.id;
}

unfoldable pub reprocess_event : Principal → DocumentVersion → Ids → TransitionEvent
reprocess_event principal source ids = record {
  tenant_id = principal.tenant_id;
  collection_id = source.collection_id;
  document_version_id = ids.version_id;
  idempotency_key = EventKey.lifecycle ids.request_id;
  from_state = source.state;
  to_state = VersionState.chunking;
  from_revision = 0;
  to_revision = 1;
  operation = Operation.reprocess;
  actor = Actor.api principal.subject;
}

abbrev to_conflict : Result TransitionError (Unit {0}) → Session (Unit {0})
to_conflict r = lift (map_err (λ e. ServiceError.conflict (ConflictReason.illegal e)) r)

unfoldable pub create_reprocessed_version :
    Principal → DocumentVersion → (pipeline_profile : String) → Ids → Session DocumentVersion
create_reprocessed_version principal source pipeline_profile ids = do
  to_conflict (validate_reprocessing_source source.state)
  raise_when (str_eq source.pipeline_profile pipeline_profile)
      (ServiceError.conflict ConflictReason.same_profile)
  deleting ← gets (deletion_in_progress principal source)
  raise_when deleting (ServiceError.conflict ConflictReason.deletion_in_progress)
  replaced ← gets (active_descendant principal source)
  raise_when replaced (ServiceError.conflict ConflictReason.active_replacement)
  normalized ← gets (normalized_exists principal source)
  raise_when (not normalized) (ServiceError.conflict ConflictReason.no_normalized_artifact)
  highest ← gets (λ s.
      max_version_number (of_document principal.tenant_id source.collection_id source.document_id)
        s.versions)
  let new = reprocessed_version principal source pipeline_profile ids (suc highest)
  insert_version new
  insert_event (reprocess_event principal source ids)
  pure new
