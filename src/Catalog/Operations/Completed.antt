-- ===== src/Catalog/Operations/Completed.antt =====
-- app/services/catalog/operations_repository.py: the outcomes of `complete_upload`, and its
-- repetition.
use atlas_rag.Common.{
  if◌then◌else◌, ◌≡◌, Option, Bool, String, true, ℕ, some, ◌∙◌, none, refl, false, ◌≢◌, Bool-cases,
  inl, inr, sym,
}
use atlas_rag.Database.{Principal, DocumentVersion, Uuid, Store, EventKey}
use atlas_rag.Catalog.Operations.{
  reject_upload, start_upload, complete_upload, Ids, already_completed, latest_job_id, queue_upload,
}
use atlas_rag.Catalog.Enums.{VersionState, IngestionStage, ◌is◌, is-false, is-eq, is_self}
use atlas_rag.Catalog.Versions.{find_version, is_member, get_version}
use atlas_rag.Catalog.Transitions.Audit.{IsAudited, find_version-id}
use atlas_rag.Catalog.Operations.Uploads.{
  IsStored, moved-IsStored, get_version-succeeds, get_version-ok, queue_upload-IsStored,
}
use atlas_rag.Common.Result.{ok}
use atlas_rag.Database.Session.{Session, pure, bind-eq-ok, gets, bind_step}
use atlas_rag.Catalog.Transitions.{transition_catalog_version}
use atlas_rag.Catalog.StateMachine.{Operation}

-- The three outcomes: the upload is queued with a preflight job, it is rejected, or it had been
-- completed before and nothing is changed.
pub data Completion (p : Principal) (k : Uuid) (valid : Bool) (v w : DocumentVersion)
    (j : Option Uuid) (s s' : Store) : Type 0 where
  queued :
      v.state ≡ VersionState.received
      → valid ≡ true
      → w.state ≡ VersionState.queued
      → latest_job_id p.tenant_id k IngestionStage.preflight s' ≡ j
      → Completion p k valid v w j s s'
  rejected :
      v.state ≡ VersionState.received
      → valid ≡ false
      → w.state ≡ VersionState.rejected
      → j ≡ none
      → Completion p k valid v w j s s'
  repeated :
      v.state ≢ VersionState.received
      → w ≡ v
      → s' ≡ s
      → latest_job_id p.tenant_id k IngestionStage.preflight s' ≡ j
      → Completion p k valid v w j s s'

-- What every completion leaves behind.
pub record IsCompleted (p : Principal) (k : Uuid) (valid : Bool) (v w : DocumentVersion)
    (j : Option Uuid) (s s' : Store) : Type 0 where
  pub read : find_version k s.versions ≡ some v
  pub owner : v.tenant_id ≡ p.tenant_id
  pub editor : is_member p true v.collection_id s.memberships ≡ true
  pub stored : IsStored v w w.state s s'
  pub outcome : Completion p k valid v w j s s'

answer :
    (a : DocumentVersion) (i : Option Uuid) (b : DocumentVersion) (o : Option Uuid) (t t' : Store)
    → pure {A = DocumentVersion × Option Uuid} (a, i) t ≡ ok ((b, o), t')
    → (b ≡ a) × (o ≡ i) × (t' ≡ t)
answer a i b o t t' q = (cc, cc, cc)

is_not : (a b : VersionState) → (a is b) ≡ false → a ≢ b
is_not a b h e = cc (is_self b)

reject_upload-IsStored :
    (p : Principal) (v w : DocumentVersion) (reason : Option String) (s s' : Store)
    (j : Option Uuid)
    → IsAudited s
    → find_version v.id s.versions ≡ some v
    → reject_upload p v reason s ≡ ok ((w, j), s')
    → IsStored v w VersionState.rejected s s' × (j ≡ none)
unfolding reject_upload
reject_upload-IsStored p v w reason s s' j audited found h =
    let (x, s1, moving, returned) =
      bind-eq-ok
        (transition_catalog_version p v VersionState.rejected Operation.advance reason
          EventKey.upload_rejected)
        (λ rejected. pure (rejected, none)) s h in
    let stored =
      moved-IsStored p v v x VersionState.rejected reason _ s s1 audited found
        (record { same_state = refl; same_revision = refl }) refl refl moving in
    let (same_w, same_j, same_s) = answer x none w j s1 s' returned in
    (rw (same_w, same_s) stored, same_j)

-- One part of an upload after another.
IsStored-trans :
    (v x w : DocumentVersion) (a b : VersionState) (s s1 s' : Store)
    → IsStored v x a s s1
    → IsStored x w b s1 s'
    → IsStored v w w.state s s'
IsStored-trans v x w a b s s1 s' r t = record {
  audited = t.audited;
  found = t.found;
  state_reached = refl;
  same_id = t.same_id ∙ r.same_id;
  same_tenant = t.same_tenant ∙ r.same_tenant;
  same_collection = t.same_collection ∙ r.same_collection;
  same_members = t.same_members ∙ r.same_members;
}

start_upload-IsCompleted :
    (p : Principal) (v w : DocumentVersion) (ids : Ids) (valid : Bool) (reason : Option String)
    (content_type : String) (n : ℕ) (s s' : Store) (j : Option Uuid)
    → IsAudited s
    → find_version v.id s.versions ≡ some v
    → v.tenant_id ≡ p.tenant_id
    → is_member p true v.collection_id s.memberships ≡ true
    → v.state ≡ VersionState.received
    → start_upload p v v.id ids valid reason content_type n s ≡ ok ((w, j), s')
    → IsCompleted p v.id valid v w j s s'
unfolding start_upload
start_upload-IsCompleted p v w ids valid reason content_type n s s' j audited found owner editor
      received h =
    let next : DocumentVersion → Session (DocumentVersion × Option Uuid) =
      λ x. if valid then queue_upload p x v.id ids content_type n else reject_upload p x reason in
    let (x, s1, moving, rest) =
      bind-eq-ok
        (transition_catalog_version p v VersionState.validating Operation.advance none
          EventKey.upload_validating)
        next s h in
    let stored =
      moved-IsStored p v v x VersionState.validating none _ s s1 audited found
        (record { same_state = refl; same_revision = refl }) refl refl moving in
    elim (Bool-cases valid) [
      | inl accepted ↦
          let (after, job) =
            queue_upload-IsStored p x ids content_type n s1 s' w j stored.audited stored.found
              (rw (accepted, ← stored.same_id) at rest) in
          record {
            read = found;
            owner = owner;
            editor = editor;
            stored = IsStored-trans v x w _ _ s s1 s' stored after;
            outcome =
                queued received accepted after.state_reached
                  (rw (← (after.same_id ∙ stored.same_id)) job);
          }
      | inr refused ↦
          let (after, no_job) =
            reject_upload-IsStored p x w reason s1 s' j stored.audited stored.found
              (rw refused at rest) in
          record {
            read = found;
            owner = owner;
            editor = editor;
            stored = IsStored-trans v x w _ _ s s1 s' stored after;
            outcome = rejected received refused after.state_reached no_job;
          }
    ]

-- On every branch the completion of an upload keeps each version's trail complete, returns the row
-- that is stored, and ends in one of the three outcomes: a valid upload of a received version is
-- queued and its job is the latest preflight job, an invalid one is rejected, and any other version
-- is returned as it is, with its latest preflight job and the store unchanged.
pub complete_upload-IsCompleted :
    (p : Principal) (k : Uuid) (ids : Ids) (valid : Bool) (reason : Option String)
    (content_type : String) (n : ℕ) (s s' : Store) (w : DocumentVersion) (j : Option Uuid)
    → IsAudited s
    → complete_upload p k ids valid reason content_type n s ≡ ok ((w, j), s')
    → (v : DocumentVersion) × IsCompleted p k valid v w j s s'
unfolding complete_upload already_completed
complete_upload-IsCompleted p k ids valid reason content_type n s s' w j audited h =
    let next : DocumentVersion → Session (DocumentVersion × Option Uuid) = λ v.
      if v.state is VersionState.received
      then start_upload p v k ids valid reason content_type n
      else gets (already_completed p v k) in
    let (v, s1, read, rest) = bind-eq-ok (get_version p k true) next s h in
    let (same, found, owner, member) = get_version-ok p k true s s1 v read in
    let id : v.id ≡ k = find_version-id k s.versions v found in
    elim (Bool-cases (v.state is VersionState.received)) [
      | inl received ↦
          let begun : start_upload p v k ids valid reason content_type n s ≡ ok ((w, j), s') =
            rw (received, same) at rest in
          (
            v,
            rw (← id) (
                start_upload-IsCompleted p v w ids valid reason content_type n s s' j audited
                  (rw id found) owner member (is-eq v.state VersionState.received received)
                  (rw (← id) at begun)),
          )
      | inr other ↦
          let (same_w, job, same_s) =
            answer v (latest_job_id p.tenant_id k IngestionStage.preflight s1) w j s1 s'
              (rw other at rest) in
          let unchanged : s' ≡ s = same_s ∙ same in
          let own : find_version w.id s'.versions ≡ some w = rw (same_w, unchanged, id) found in
          (
            v,
            record {
              read = found;
              owner = owner;
              editor = member;
              stored = record {
                audited = rw unchanged audited;
                found = own;
                state_reached = refl;
                same_id = rw same_w refl;
                same_tenant = rw same_w refl;
                same_collection = rw same_w refl;
                same_members = rw unchanged refl;
              };
              outcome =
                  repeated (is_not v.state VersionState.received other) same_w unchanged
                    (rw same_s (sym job));
            },
          )
    ]

already_completed_again :
    (p : Principal) (k : Uuid) (ids : Ids) (valid : Bool) (reason : Option String)
    (content_type : String) (n : ℕ) (s : Store) (w : DocumentVersion) (j : Option Uuid)
    → find_version k s.versions ≡ some w
    → w.tenant_id ≡ p.tenant_id
    → is_member p true w.collection_id s.memberships ≡ true
    → (w.state is VersionState.received) ≡ false
    → latest_job_id p.tenant_id k IngestionStage.preflight s ≡ j
    → complete_upload p k ids valid reason content_type n s ≡ ok ((w, j), s)
unfolding complete_upload already_completed
already_completed_again p k ids valid reason content_type n s w j found owner editor other job =
    let next : DocumentVersion → Session (DocumentVersion × Option Uuid) = λ v.
      if v.state is VersionState.received
      then start_upload p v k ids valid reason content_type n
      else gets (already_completed p v k) in
    bind_step (get_version p k true) next s (get_version-succeeds p k true s w found owner editor)
    ∙ rw (other, job) refl

Completion-job :
    (p : Principal) (k : Uuid) (valid : Bool) (v w : DocumentVersion) (j : Uuid) (s s' : Store)
    → Completion p k valid v w (some j) s s'
    → ((w.state is VersionState.received) ≡ false)
      × (latest_job_id p.tenant_id k IngestionStage.preflight s' ≡ some j)
unfolding ◌is◌
Completion-job p k valid v w j s s' (queued received accepted state job) = (rw state refl, job)
Completion-job p k valid v w j s s' (rejected received refused state no_job) = absurd (cc)
Completion-job p k valid v w j s s' (repeated other same unchanged job) =
    (rw same (is-false v.state VersionState.received other), job)

-- Repeating the completion of an upload that gave a job, with whatever arguments, gives the same
-- version and the same job and changes nothing.
pub complete_upload_repeats :
    (p : Principal) (k : Uuid) (ids ids' : Ids) (valid valid' : Bool)
    (reason reason' : Option String) (content_type content_type' : String) (n n' : ℕ) (s s' : Store)
    (w : DocumentVersion) (j : Uuid)
    → IsAudited s
    → complete_upload p k ids valid reason content_type n s ≡ ok ((w, some j), s')
    → complete_upload p k ids' valid' reason' content_type' n' s' ≡ ok ((w, some j), s')
unfolding complete_upload already_completed
complete_upload_repeats p k ids ids' valid valid' reason reason' content_type content_type' n n' s
      s' w j audited h =
    let (v, c) =
      complete_upload-IsCompleted p k ids valid reason content_type n s s' w (some j) audited h in
    let id : w.id ≡ k = c.stored.same_id ∙ find_version-id k s.versions v c.read in
    let (other, job) = Completion-job p k valid v w j s s' c.outcome in
    already_completed_again p k ids' valid' reason' content_type' n' s' w (some j)
      (rw (← id) c.stored.found) (c.stored.same_tenant ∙ c.owner)
      (rw (c.stored.same_collection, c.stored.same_members) c.editor) other job
