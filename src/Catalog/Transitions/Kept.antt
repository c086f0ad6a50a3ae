-- ===== src/Catalog/Transitions/Kept.antt =====
-- app/services/catalog/operation_transitions.py and ingestion/repository_support.py: transitions
-- among the statements of a block. A block reads a version and moves it, and the trail of every
-- version is complete before and after each statement.
use atlas_rag.Catalog.Transitions.Recorded.{transition_catalog_version-IsTransition, IsCurrent}
use atlas_rag.Database.{DocumentVersion, Store, Uuid, Principal, EventKey, Artifact, IngestionJob}
use atlas_rag.Catalog.Transitions.{
  moved, transition_catalog_version, create_ingestion_job, insert_job, new_job, next_generation,
  at_stage, is_delivery_of,
}
use atlas_rag.Catalog.Transitions.Audit.{IsAudited, find_version-id}
use atlas_rag.Common.{
  ◌≡◌, Bool, update_where, some, Option, String, if◌then◌else◌, refl, ◌∙◌, ap, ℕ, Bool-cases, any,
  inl, arith, inr,
}
use atlas_rag.Catalog.Versions.{find_version, get_version}
use atlas_rag.Catalog.Enums.{VersionState, IngestionStage}
use atlas_rag.Catalog.Operations.Uploads.{
  changed_state, update_where-IsAudited, find_before, insert_artifact-ok, get_version-ok,
}
use atlas_rag.Catalog.StateMachine.{Operation}
use atlas_rag.Database.Leads.{Leads, Keeps}
use atlas_rag.Database.Session.{Session, bind-eq-ok, pure}
use atlas_rag.Catalog.Operations.{insert_artifact}
use atlas_rag.Database.Quiet.{IsQuiet}

-- The trails are complete, and what the block knows of a version is still so.
pub record IsAuditedAt (v : DocumentVersion) (s : Store) : Type 0 where
  pub audited : IsAudited s
  pub row : DocumentVersion
  pub found : find_version v.id s.versions ≡ some row
  pub current : IsCurrent v row

pub read-IsAuditedAt :
    (v : DocumentVersion) (k : Uuid) (s : Store)
    → IsAudited s
    → find_version k s.versions ≡ some v
    → IsAuditedAt v s
read-IsAuditedAt v k s audited found = record {
  audited = audited;
  row = v;
  found = ap (λ i. find_version i s.versions) (find_version-id k s.versions v found) ∙ found;
  current = record { same_state = refl; same_revision = refl };
}

-- Statements on other tables.
pub other_tables-IsAudited :
    (s s' : Store) → s'.versions ≡ s.versions → s'.events ≡ s.events → IsAudited s → IsAudited s'
other_tables-IsAudited s s' versions events audited = record {
  trail = λ k v h. rw events (audited.trail k v (rw versions at h));
  no_orphan = λ k h. rw events (audited.no_orphan k (rw versions at h));
}

pub other_tables-IsAuditedAt :
    (v : DocumentVersion) (s s' : Store)
    → s'.versions ≡ s.versions
    → s'.events ≡ s.events
    → IsAuditedAt v s
    → IsAuditedAt v s'
other_tables-IsAuditedAt v s s' versions events p = record {
  audited = other_tables-IsAudited s s' versions events p.audited;
  row = p.row;
  found = rw versions p.found;
  current = p.current;
}

-- An update of the columns that no trail speaks of.
pub update_where-IsAuditedAt :
    (q : DocumentVersion → Bool) (f : DocumentVersion → DocumentVersion)
    → ((v : DocumentVersion) → (f v).id ≡ v.id)
    → ((v : DocumentVersion) → (f v).state ≡ v.state)
    → ((v : DocumentVersion) → (f v).state_revision ≡ v.state_revision)
    → (v : DocumentVersion) (s : Store) → IsAuditedAt v s
    → IsAuditedAt v (record s { versions = update_where q f s.versions })
update_where-IsAuditedAt q f id state revision v s p =
    let (same_state, same_revision) = changed_state q f id state revision (q p.row) p.row in
    record {
      audited = update_where-IsAudited q f id state revision s p.audited;
      row = if q p.row then f p.row else p.row;
      found = find_before q f id state revision v.id s.versions p.row p.found;
      current = record {
        same_state = same_state ∙ p.current.same_state;
        same_revision = same_revision ∙ p.current.same_revision;
      };
    }

-- A transition of the API, by the row that the block has read.
pub transition_catalog_version-IsAuditedAt :
    (p : Principal) (v : DocumentVersion) (target : VersionState) (operation : Operation)
    (reason : Option String) (key : EventKey)
    → Leads (IsAuditedAt v) (transition_catalog_version p v target operation reason key) IsAuditedAt
unfolding moved
transition_catalog_version-IsAuditedAt p v target operation reason key = record {
  leads = λ s s' w at_v h.
      let t =
        transition_catalog_version-IsTransition p v at_v.row w target operation reason key s s'
          at_v.audited at_v.found at_v.current h in
      read-IsAuditedAt w v.id s' t.audited t.found;
}

-- Statements that do not touch a version or an event.
pub IsQuiet-IsAudited : {A : Type 0} {m : Session A} → IsQuiet m → Keeps IsAudited m
IsQuiet-IsAudited quiet = record {
  leads = λ s s' a p h.
      let (versions, events) = quiet.quiet s s' a h in
      other_tables-IsAudited s s' versions events p;
}

pub IsQuiet-IsAuditedAt :
    {A : Type 0} {m : Session A} (v : DocumentVersion) → IsQuiet m → Keeps (IsAuditedAt v) m
IsQuiet-IsAuditedAt v quiet = record {
  leads = λ s s' a p h.
      let (versions, events) = quiet.quiet s s' a h in
      other_tables-IsAuditedAt v s s' versions events p;
}

-- Jobs and artifacts.
pub insert_artifact-IsQuiet : (new : Artifact) → IsQuiet (insert_artifact new)
insert_artifact-IsQuiet new = record {
  quiet = λ s s' a h. let (artifacts, e) = insert_artifact-ok new s s' a h in rw e (refl, refl);
}

insert_job-IsQuiet : (new : IngestionJob) → IsQuiet (insert_job new)
unfolding insert_job
insert_job-IsQuiet new = record {
  quiet = λ s s' a h. elim (Bool-cases (any (is_delivery_of new) s.jobs)) [
    | inl delivered ↦ absurd (ground arith)
    | inr fresh ↦ (ground arith, ground arith)
  ];
}

pub create_ingestion_job-IsQuiet :
    (p : Principal) (v : DocumentVersion) (stage : IngestionStage) (max_attempts : ℕ)
    (request_id : Option Uuid) (job_id : Uuid)
    → IsQuiet (create_ingestion_job p v stage max_attempts request_id job_id)
unfolding create_ingestion_job
create_ingestion_job-IsQuiet p v stage max_attempts request_id job_id = record {
  quiet = λ s s' a h.
      let new : IngestionJob =
        new_job p v stage (next_generation (at_stage p.tenant_id v.id stage) s.jobs) max_attempts
          request_id job_id in
      let (u, s1, inserted, returned) = bind-eq-ok (insert_job new) (λ _. pure job_id) s h in
      let last : s1 ≡ s' = cc in rw (← last) ((insert_job-IsQuiet new).quiet s s1 u inserted);
}

-- A version that is read stands as it was read.
pub get_version-IsAuditedAt :
    (p : Principal) (k : Uuid) (require_editor : Bool)
    → Leads IsAudited (get_version p k require_editor) IsAuditedAt
get_version-IsAuditedAt p k require_editor = record {
  leads = λ s s' v audited h.
      let (same, found, owner, member) = get_version-ok p k require_editor s s' v h in
      rw same (read-IsAuditedAt v k s audited found);
}
