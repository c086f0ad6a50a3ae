-- ===== src/Catalog/Operations/Uploads.antt =====
-- app/services/catalog/operations_repository.py: the parts of `complete_upload`, one by one.
use atlas_rag.Common.{
  ℕ, Bool, find, Option, update_where, String, ◌≡◌, [], ◌∷◌, if◌then◌else◌, false, none, some, List,
  Option-cases, true, inl, arith, inr, ◌==◌, none, ◌&&◌, refl, sym, ◌∙◌, Bool-cases, any, ap,
}
use atlas_rag.Catalog.Versions.{get_version, find_version, is_member}
use atlas_rag.Database.{DocumentVersion, Principal, Uuid, Store, Artifact, IngestionJob, EventKey}
use atlas_rag.Catalog.Operations.{
  set_detected_mime, insert_artifact, is_output_of, queue_upload, Ids, latest_job_id, queue_job,
  original_artifact,
}
use atlas_rag.Common.Result.{ok}
use atlas_rag.Catalog.Transitions.Audit.{IsAudited, find_version-id}
use atlas_rag.Catalog.Transitions.Recorded.{IsCurrent, transition_catalog_version-IsTransition}
use atlas_rag.Catalog.Enums.{VersionState, IngestionStage, same_stage}
use atlas_rag.Catalog.Transitions.{create_ingestion_job, transition_catalog_version, moved}
use atlas_rag.Catalog.Operations.Jobs.{create_ingestion_job_succeeds}
use atlas_rag.Database.Session.{pure, bind-eq-ok, Session, ◌>>=◌, modify, ◌>>◌}
use atlas_rag.Catalog.StateMachine.{Operation}

pub get_version-ok :
    (p : Principal) (k : Uuid) (require_editor : Bool) (s s' : Store) (v : DocumentVersion)
    → get_version p k require_editor s ≡ ok (v, s')
    → (s' ≡ s)
      × (find_version k s.versions ≡ some v)
      × (v.tenant_id ≡ p.tenant_id)
      × (is_member p require_editor v.collection_id s.memberships ≡ true)
unfolding get_version
get_version-ok p k require_editor s s' v h = elim (Option-cases (find_version k s.versions)) [
  | inl missing ↦ ground arith
  | inr (row, found) ↦ ground arith
]

pub get_version-succeeds :
    (p : Principal) (k : Uuid) (require_editor : Bool) (s : Store) (v : DocumentVersion)
    → find_version k s.versions ≡ some v
    → v.tenant_id ≡ p.tenant_id
    → is_member p require_editor v.collection_id s.memberships ≡ true
    → get_version p k require_editor s ≡ ok (v, s)
unfolding get_version
get_version-succeeds p k require_editor s v found owner member = ground arith

-- An update that leaves the ids alone, seen through a look-up.
abbrev updated_row :
    (DocumentVersion → Bool)
    → (DocumentVersion → DocumentVersion)
    → Option DocumentVersion
    → Option DocumentVersion
updated_row q f none = none
updated_row q f (some v) = some (if q v then f v else v)

find-update_where :
    (q : DocumentVersion → Bool) (f : DocumentVersion → DocumentVersion)
    → ((v : DocumentVersion) → (f v).id ≡ v.id)
    → (k : Uuid) (versions : List DocumentVersion)
    → find_version k (update_where q f versions) ≡ updated_row q f (find_version k versions)
unfolding find_version find update_where
find-update_where q f same k [] = refl
find-update_where q f same k (v ∷ versions) =
    ground (arith, same v, find-update_where q f same k versions)

updated_row-some :
    (q : DocumentVersion → Bool) (f : DocumentVersion → DocumentVersion)
    → (o : Option DocumentVersion) (v : DocumentVersion) → updated_row q f o ≡ some v
    → (row : DocumentVersion) × (o ≡ some row) × (v ≡ (if q row then f row else row))
updated_row-some q f none v h = cc
updated_row-some q f (some row) v h = (row, refl, cc)

updated_row-none :
    (q : DocumentVersion → Bool) (f : DocumentVersion → DocumentVersion)
    (o : Option DocumentVersion)
    → updated_row q f o ≡ none
    → o ≡ none
updated_row-none q f none h = refl
updated_row-none q f (some row) h = cc

-- An update of columns that no trail speaks of.
module _ (q : DocumentVersion → Bool) (f : DocumentVersion → DocumentVersion)
    (same_id : (v : DocumentVersion) → (f v).id ≡ v.id)
    (same_state : (v : DocumentVersion) → (f v).state ≡ v.state)
    (same_revision : (v : DocumentVersion) → (f v).state_revision ≡ v.state_revision) where
  pub changed_state :
      (b : Bool) (row : DocumentVersion)
      → ((if b then f row else row).state ≡ row.state)
        × ((if b then f row else row).state_revision ≡ row.state_revision)
  changed_state true row = (same_state row, same_revision row)
  changed_state false row = (refl, refl)

  pub find_after :
      (k : Uuid) (versions : List DocumentVersion) (v : DocumentVersion)
      → find_version k (update_where q f versions) ≡ some v
      → (row : DocumentVersion) × (find_version k versions ≡ some row) × IsCurrent v row
  find_after k versions v h =
      let (row, found, e) =
        updated_row-some q f (find_version k versions) v
          (sym (find-update_where q f same_id k versions) ∙ h) in
      let (state, revision) = changed_state (q row) row in
      (row, found, record { same_state = rw e (sym state); same_revision = rw e (sym revision) })

  pub update_where-IsAudited :
      (s : Store) → IsAudited s → IsAudited (record s { versions = update_where q f s.versions })
  update_where-IsAudited s audited = record {
    trail = λ k v h.
        let (row, found, current) = find_after k s.versions v h in
        rw (← current.same_state, ← current.same_revision) (audited.trail k row found);
    no_orphan = λ k h. audited.no_orphan k (
        updated_row-none q f (find_version k s.versions)
          (sym (find-update_where q f same_id k s.versions) ∙ h));
  }

  pub find_before :
      (k : Uuid) (versions : List DocumentVersion) (row : DocumentVersion)
      → find_version k versions ≡ some row
      → find_version k (update_where q f versions) ≡ some (if q row then f row else row)
  find_before k versions row h = find-update_where q f same_id k versions ∙ rw h refl

pub insert_artifact-ok :
    (new : Artifact) (s s' : Store) (u : Unit {0})
    → insert_artifact new s ≡ ok (u, s')
    → (artifacts : List Artifact) × (s' ≡ record s { artifacts = artifacts })
unfolding insert_artifact
insert_artifact-ok new s s' u h = elim (Bool-cases (any (is_output_of new) s.artifacts)) [
  | inl present ↦ (s.artifacts, ground arith)
  | inr fresh ↦ (new ∷ s.artifacts, ground arith)
]

-- What a part of an upload leaves behind of a version: the stored row is the one returned, with
-- the identity it had, and the members are as they were.
pub record IsStored (v w : DocumentVersion) (state : VersionState) (s s' : Store) : Type 0 where
  pub audited : IsAudited s'
  pub found : find_version w.id s'.versions ≡ some w
  pub state_reached : w.state ≡ state
  pub same_id : w.id ≡ v.id
  pub same_tenant : w.tenant_id ≡ v.tenant_id
  pub same_collection : w.collection_id ≡ v.collection_id
  pub same_members : s'.memberships ≡ s.memberships

since-IsStored :
    (v w : DocumentVersion) (state : VersionState) (s s1 s' : Store)
    → s1.memberships ≡ s.memberships
    → IsStored v w state s1 s'
    → IsStored v w state s s'
since-IsStored v w state s s1 s' same r = record {
  audited = r.audited;
  found = r.found;
  state_reached = r.state_reached;
  same_id = r.same_id;
  same_tenant = r.same_tenant;
  same_collection = r.same_collection;
  same_members = r.same_members ∙ same;
}

typed_identity :
    (b : Bool) (content_type : String) (row : DocumentVersion)
    → ((if b then record row { detected_mime = some content_type } else row).tenant_id
        ≡ row.tenant_id)
      × ((if b then record row { detected_mime = some content_type } else row).collection_id
          ≡ row.collection_id)
typed_identity true content_type row = (refl, refl)
typed_identity false content_type row = (refl, refl)

queued_job :
    (p : Principal) (v : DocumentVersion) (max_attempts : ℕ) (job_id k : Uuid) (s s' : Store)
    → create_ingestion_job p v IngestionStage.preflight max_attempts none job_id s ≡ ok (k, s')
    → (j : IngestionJob) × (s' ≡ record s { jobs = j ∷ s.jobs })
      × (latest_job_id p.tenant_id v.id IngestionStage.preflight s' ≡ some k)
unfolding same_stage
queued_job p v max_attempts job_id k s s' h =
    let (j, made, newest, waiting) =
      create_ingestion_job_succeeds p v IngestionStage.preflight max_attempts none job_id s refl in
    let same : s' ≡ record s { jobs = j ∷ s.jobs } = cc in
    let id : k ≡ job_id = cc in (j, same, rw (same, id) newest)

pub moved-IsStored :
    (p : Principal) (v row w : DocumentVersion) (state : VersionState) (reason : Option String)
    (key : EventKey) (s s' : Store)
    → IsAudited s
    → find_version v.id s.versions ≡ some row
    → IsCurrent v row
    → row.tenant_id ≡ v.tenant_id
    → row.collection_id ≡ v.collection_id
    → transition_catalog_version p v state Operation.advance reason key s ≡ ok (w, s')
    → IsStored v w state s s'
unfolding moved
moved-IsStored p v row w state reason key s s' audited found current owner collection h =
    let t =
      transition_catalog_version-IsTransition p v row w state Operation.advance reason key s s'
        audited found current h in
    let same = find_version-id v.id s'.versions w t.found in
    record {
      audited = t.audited;
      found = ap (λ i. find_version i s'.versions) same ∙ t.found;
      state_reached = t.state;
      same_id = same;
      same_tenant = ap (λ (x : DocumentVersion). x.tenant_id) t.row_moved ∙ owner;
      same_collection = ap (λ (x : DocumentVersion). x.collection_id) t.row_moved ∙ collection;
      same_members = ap (λ (x : Store). x.memberships) t.stored;
    }

job_pair :
    (v : DocumentVersion) (j : Uuid) (w : DocumentVersion) (k : Option Uuid) (s s' : Store)
    → pure {A = DocumentVersion × Option Uuid} (v, some j) s ≡ ok ((w, k), s')
    → (w ≡ v) × (k ≡ some j) × (s' ≡ s)
job_pair v j w k s s' h = (cc, cc, cc)

queue_job-IsStored :
    (p : Principal) (v row : DocumentVersion) (ids : Ids) (n : ℕ) (s s' : Store)
    (w : DocumentVersion) (k : Option Uuid)
    → IsAudited s
    → find_version v.id s.versions ≡ some row
    → IsCurrent v row
    → row.tenant_id ≡ v.tenant_id
    → row.collection_id ≡ v.collection_id
    → queue_job p v ids n s ≡ ok ((w, k), s')
    → IsStored v w VersionState.queued s s'
      × (latest_job_id p.tenant_id w.id IngestionStage.preflight s' ≡ k)
unfolding queue_job
queue_job-IsStored p v row ids n s s' w k audited found current owner collection h =
    let create : DocumentVersion → Session (DocumentVersion × Option Uuid) = λ queued.
      create_ingestion_job p queued IngestionStage.preflight n none ids.job_id >>= λ job_id.
      pure (queued, some job_id) in
    let (x, s1, moving, created) =
      bind-eq-ok
        (transition_catalog_version p v VersionState.queued Operation.advance none
          EventKey.upload_queued)
        create s h in
    let stored =
      moved-IsStored p v row x VersionState.queued none _ s s1 audited found current owner
        collection moving in
    let (job_id, s2, creating, returned) =
      bind-eq-ok (create_ingestion_job p x IngestionStage.preflight n none ids.job_id)
        (λ job_id. pure (x, some job_id)) s1 created in
    let (same_w, same_k, same_s) = job_pair x job_id w k s2 s' returned in
    let (j, added, newest) = queued_job p x n ids.job_id job_id s1 s2 creating in
    (
      rw (same_w, same_s, added)
          (record {
            audited = record { trail = stored.audited.trail; no_orphan = stored.audited.no_orphan };
            found = stored.found;
            state_reached = stored.state_reached;
            same_id = stored.same_id;
            same_tenant = stored.same_tenant;
            same_collection = stored.same_collection;
            same_members = stored.same_members;
          }),
      rw (same_w, same_k, same_s) newest,
    )

pub queue_upload-IsStored :
    (p : Principal) (v : DocumentVersion) (ids : Ids) (content_type : String) (n : ℕ) (s s' : Store)
    (w : DocumentVersion) (k : Option Uuid)
    → IsAudited s
    → find_version v.id s.versions ≡ some v
    → queue_upload p v v.id ids content_type n s ≡ ok ((w, k), s')
    → IsStored v w VersionState.queued s s'
      × (latest_job_id p.tenant_id w.id IngestionStage.preflight s' ≡ k)
unfolding queue_upload set_detected_mime
queue_upload-IsStored p v ids content_type n s s' w k audited found h =
    let (u, s1, inserted, rest) =
      bind-eq-ok (insert_artifact (original_artifact ids.artifact_id p v v.id))
        (λ _. modify (set_detected_mime p v.id content_type) >> queue_job p v ids n) s h in
    let (artifacts, same) = insert_artifact-ok _ s s1 u inserted in
    let q : DocumentVersion → Bool = λ x. (x.tenant_id == p.tenant_id) && (x.id == v.id) in
    let f : DocumentVersion → DocumentVersion =
      λ x. record x { detected_mime = some content_type } in
    let s2 : Store = record s { artifacts = artifacts; versions = update_where q f s.versions } in
    let row : DocumentVersion = if q v then f v else v in
    let found_row : find_version v.id s2.versions ≡ some row =
      find_before q f (λ _. refl) (λ _. refl) (λ _. refl) v.id s.versions v found in
    let (state, revision) = changed_state q f (λ _. refl) (λ _. refl) (λ _. refl) (q v) v in
    let (owner, collection) = typed_identity (q v) content_type v in
    let kept = update_where-IsAudited q f (λ _. refl) (λ _. refl) (λ _. refl) s audited in
    let (stored, job) =
      queue_job-IsStored p v row ids n s2 s' w k
        (record { trail = kept.trail; no_orphan = kept.no_orphan }) found_row
        (record { same_state = state; same_revision = revision }) owner collection
        (rw same at rest) in
    (since-IsStored v w VersionState.queued s s2 s' refl stored, job)
