-- ===== src/Catalog/Lifecycle/Audited.antt =====
-- app/services/catalog/operations_repository.py and reprocessing_repository.py: the lifecycle
-- requests among the trails of the versions.
use text.Mathlib.Text.{◌==◌ as str_eq}
use native.Mathlib.Decide.{ℕ_discrete}
use atlas_rag.Database.Leads.{
  Leads, Keeps, Leads-bind, Leads-after, Leads-pure, Leads-lift, Leads-raise_when, Leads-at,
  Leads-from,
}
use atlas_rag.Catalog.Transitions.Kept.{
  IsAuditedAt, IsQuiet-IsAuditedAt, other_tables-IsAudited, read-IsAuditedAt,
  transition_catalog_version-IsAuditedAt, create_ingestion_job-IsQuiet, get_version-IsAuditedAt,
}
use atlas_rag.Database.{
  DocumentVersion, TransitionEvent, Principal, Store, RequestState, LifecycleRequest, Uuid,
  EventKey,
}
use atlas_rag.Catalog.Reprocessing.{
  reprocessed_version, create_reprocessed_version, reprocess_event, clashes, insert_version,
  deletion_in_progress, active_descendant, normalized_exists, max_version_number, of_document,
}
use atlas_rag.Common.{
  String, any, ℕ, ◌≡◌, false, not, ◌∷◌, sym, ◌∙◌, suc, refl, Option, none, some, arith, ◌&&◌, true,
  find,
}
use atlas_rag.Catalog.Transitions.Audit.{
  IsAudited, Trail, trail_of, some-eq, trail_of_self, reprocessed, trail_of_ne,
}
use atlas_rag.Catalog.Operations.{Ids}
use atlas_rag.Database.Session.{◌>>◌, pure, bind-eq-ok, Session}
use atlas_rag.Catalog.Transitions.{insert_event}
use atlas_rag.Catalog.Enums.{VersionState, IngestionStage}
use atlas_rag.Catalog.StateMachine.{Operation}
use atlas_rag.Catalog.Registration.Registered.{insert_version-ok}
use atlas_rag.Catalog.Transitions.Recorded.{log-ok}
use atlas_rag.Catalog.Registration.Trails.{trail_of_new, find-cons_self, find-cons_ne}
use atlas_rag.Catalog.Lifecycle.{
  target_version, insert_request, cancel_active_jobs, perform, replay_request, new_request,
  lifecycle_request, with_job, operation_eq, Answer, has_active_deletion_job, replay_or_create,
  same_request,
}
use atlas_rag.Database.Quiet.{IsQuiet}

-- A version that is stored with the event that it begins with.
module _ (new : DocumentVersion) (e : TransitionEvent) (s : Store) (audited : IsAudited s)
    (free : any (clashes new) s.versions ≡ false) (state : new.state ≡ VersionState.chunking)
    (revision : new.state_revision ≡ 1) (about : e.document_version_id ≡ new.id)
    (from : e.from_revision ≡ 0) (to : e.to_revision ≡ 1)
    (target : e.to_state ≡ VersionState.chunking)
    (operation : e.operation ≡ Operation.reprocess) where
  new_Trail : Trail new.state_revision new.state (trail_of new.id (e ∷ s.events))
  new_Trail =
      rw (state, revision, trail_of_self new.id e s.events about, trail_of_new new s audited free)
        (reprocessed e from to target operation)

  insert_reprocessed-IsAudited :
      IsAudited (record s { versions = new ∷ s.versions; events = e ∷ s.events })
  insert_reprocessed-IsAudited = record {
    trail = λ k v h. elim (ℕ_discrete k new.id) [
      | yes same ↦
          let is_new : new ≡ v = some-eq (sym (find-cons_self new s.versions) ∙ rw same at h) in
          rw (same, ← is_new) new_Trail
      | no other ↦
          rw (trail_of_ne k e s.events (λ q. other (sym q ∙ about)))
            (audited.trail k v (sym (find-cons_ne k new s.versions other) ∙ h))
    ];
    no_orphan = λ k h. elim (ℕ_discrete k new.id) [
      | yes same ↦
          let found = find-cons_self new s.versions in let missing = rw same at h in absurd (cc)
      | no other ↦
          trail_of_ne k e s.events (λ q. other (sym q ∙ about))
          ∙ audited.no_orphan k (sym (find-cons_ne k new s.versions other) ∙ h)
    ];
  }

store_reprocessed-IsAuditedAt :
    (p : Principal) (source : DocumentVersion) (profile : String) (ids : Ids) (n : ℕ)
    → Leads IsAudited
        (insert_version (reprocessed_version p source profile ids n)
          >> (insert_event (reprocess_event p source ids)
              >> pure (reprocessed_version p source profile ids n)))
        IsAuditedAt
unfolding reprocessed_version reprocess_event
store_reprocessed-IsAuditedAt p source profile ids n = record {
  leads = λ s s' w audited h.
      let new : DocumentVersion = reprocessed_version p source profile ids n in
      let e : TransitionEvent = reprocess_event p source ids in
      let (u, s1, inserted, rest) =
        bind-eq-ok (insert_version new) (λ _. insert_event e >> pure new) s h in
      let (free, stored) = insert_version-ok new s s1 u inserted in
      let (same, last) = log-ok e new w s1 s' rest in
      let after : s' ≡ record s { versions = new ∷ s.versions; events = e ∷ s.events } =
        last ∙ rw stored refl in
      read-IsAuditedAt w new.id s'
        (rw after
          (insert_reprocessed-IsAudited new e s audited free refl refl refl refl refl refl refl))
        (rw (after, same) (find-cons_self new s.versions));
}

create_reprocessed_version-IsAuditedAt :
    (p : Principal) (source : DocumentVersion) (profile : String) (ids : Ids)
    → Leads IsAudited (create_reprocessed_version p source profile ids) IsAuditedAt
unfolding create_reprocessed_version
create_reprocessed_version-IsAuditedAt p source profile ids =
    Leads-bind (Leads-lift _ (λ _ s p. p)) (λ _.
      Leads-bind (Leads-raise_when (λ _. str_eq source.pipeline_profile profile) _ (λ s _ p. p))
        (λ _. Leads-bind (Leads-raise_when (deletion_in_progress p source) _ (λ s _ p. p)) (λ _.
          Leads-bind (Leads-raise_when (active_descendant p source) _ (λ s _ p. p)) (λ _.
            Leads-bind (Leads-raise_when (λ s. not (normalized_exists p source s)) _ (λ s _ p. p))
              (λ _.
                Leads-at
                  (λ s.
                    max_version_number
                      (of_document p.tenant_id source.collection_id source.document_id) s.versions)
                  (λ n. store_reprocessed-IsAuditedAt p source profile ids (suc n)))))))

target_version-IsAuditedAt :
    (p : Principal) (source : DocumentVersion) (operation : Operation) (profile : Option String)
    (ids : Ids)
    → Leads (IsAuditedAt source) (target_version p source operation profile ids) IsAuditedAt
unfolding target_version
target_version-IsAuditedAt p source Operation.reprocess none ids = record {
  leads = λ s s' a q h. absurd (cc);
}
target_version-IsAuditedAt p source Operation.reprocess (some profile) ids =
    Leads-from (create_reprocessed_version-IsAuditedAt p source profile ids) (λ s q. q.audited)
target_version-IsAuditedAt p source Operation.advance profile ids = Leads-pure source (λ s q. q)
target_version-IsAuditedAt p source Operation.cancel profile ids = Leads-pure source (λ s q. q)
target_version-IsAuditedAt p source Operation.retry profile ids = Leads-pure source (λ s q. q)
target_version-IsAuditedAt p source Operation.delete profile ids = Leads-pure source (λ s q. q)
target_version-IsAuditedAt p source Operation.supersede profile ids = Leads-pure source (λ s q. q)
target_version-IsAuditedAt p source Operation.reconcile profile ids = Leads-pure source (λ s q. q)
target_version-IsAuditedAt p source (Operation.other x) profile ids = Leads-pure source (λ s q. q)

insert_request-IsQuiet : (new : LifecycleRequest) → IsQuiet (insert_request new)
unfolding insert_request
insert_request-IsQuiet new = record { quiet = λ s s' a h. (ground arith, ground arith) }

with_job-IsAudited :
    (p : Principal) (v : DocumentVersion) (stage : IngestionStage) (n : ℕ) (ids : Ids)
    → Leads (IsAuditedAt v) (with_job p v stage n ids) (λ _ s. IsAudited s)
with_job-IsAudited p v stage n ids =
    Leads-bind
      (IsQuiet-IsAuditedAt v
        (create_ingestion_job-IsQuiet p v stage n (some ids.request_id) ids.job_id))
      (λ job_id. Leads-pure (v, some job_id) (λ s q. q.audited))

cancel_active_jobs-IsAudited :
    (now : ℕ) (t k : Uuid) (s : Store) → IsAudited s → IsAudited (cancel_active_jobs now t k s)
unfolding cancel_active_jobs
cancel_active_jobs-IsAudited now t k s audited =
    other_tables-IsAudited s (cancel_active_jobs now t k s) refl refl audited

abbrev Performed : Principal → DocumentVersion → Operation → RequestState → ℕ → ℕ → Ids → Type 0
Performed p v operation state now n ids =
    Leads (IsAuditedAt v) (perform p v operation state now n ids) (λ _ s. IsAudited s)

perform_delete-IsAudited :
    (p : Principal) (v : DocumentVersion) (state : RequestState) (now n : ℕ) (ids : Ids)
    → Performed p v Operation.delete state now n ids
unfolding perform
perform_delete-IsAudited p v RequestState.pending now n ids =
    with_job-IsAudited p v IngestionStage.delete n ids
perform_delete-IsAudited p v RequestState.running now n ids =
    Leads-pure (v, none) (λ s q. q.audited)
perform_delete-IsAudited p v RequestState.succeeded now n ids =
    Leads-pure (v, none) (λ s q. q.audited)
perform_delete-IsAudited p v RequestState.failed now n ids = Leads-pure (v, none) (λ s q. q.audited)

perform-IsAudited :
    (p : Principal) (v : DocumentVersion) (operation : Operation) (state : RequestState) (now n : ℕ)
    (ids : Ids)
    → Performed p v operation state now n ids
unfolding perform
perform-IsAudited p v Operation.cancel state now n ids =
    Leads-bind
      (transition_catalog_version-IsAuditedAt p v VersionState.cancelled Operation.cancel none
        (EventKey.lifecycle ids.request_id))
      (λ cancelled.
        Leads-after (cancel_active_jobs now p.tenant_id cancelled.id) (pure (cancelled, none))
          (λ s q. cancel_active_jobs-IsAudited now p.tenant_id cancelled.id s q.audited)
          (Leads-pure (cancelled, none) (λ s q. q)))
perform-IsAudited p v Operation.retry state now n ids =
    Leads-bind
      (transition_catalog_version-IsAuditedAt p v VersionState.queued Operation.retry none
        (EventKey.lifecycle ids.request_id))
      (λ queued. with_job-IsAudited p queued IngestionStage.preflight n ids)
perform-IsAudited p v Operation.reprocess state now n ids =
    with_job-IsAudited p v IngestionStage.chunk n ids
perform-IsAudited p v Operation.delete state now n ids =
    perform_delete-IsAudited p v state now n ids
perform-IsAudited p v Operation.advance state now n ids = Leads-pure (v, none) (λ s q. q.audited)
perform-IsAudited p v Operation.supersede state now n ids = Leads-pure (v, none) (λ s q. q.audited)
perform-IsAudited p v Operation.reconcile state now n ids = Leads-pure (v, none) (λ s q. q.audited)
perform-IsAudited p v (Operation.other x) state now n ids = Leads-pure (v, none) (λ s q. q.audited)

replay_request-IsAudited :
    (p : Principal) (k : Uuid) (source : DocumentVersion) (operation : Operation)
    (existing : LifecycleRequest)
    → Keeps IsAudited (replay_request p k source operation existing)
unfolding replay_request
replay_request-IsAudited p k source operation existing = record {
  leads = λ s s' a audited h. let same : s' ≡ s = ground arith in rw same audited;
}

new_request-IsAudited :
    (p : Principal) (k : Uuid) (source : DocumentVersion) (operation : Operation) (key : String)
    (now n : ℕ) (profile : Option String) (ids : Ids)
    → Leads
        (IsAuditedAt source)
        (new_request p k source operation key now n profile ids)
        (λ _ s. IsAudited s)
unfolding new_request
new_request-IsAudited p k source operation key now n profile ids =
    Leads-bind
      (Leads-raise_when
        (λ s. operation_eq operation Operation.delete && has_active_deletion_job p.tenant_id k s) _
        (λ s _ q. q))
      (λ _. Leads-bind (target_version-IsAuditedAt p source operation profile ids) (λ v.
        Leads-bind (IsQuiet-IsAuditedAt v (insert_request-IsQuiet _)) (λ _.
          Leads-bind (perform-IsAudited p v operation _ now n ids)
            (λ (final, job_id). Leads-pure _ (λ s q. q)))))

replay_or_create-IsAudited :
    (source : DocumentVersion) (existing : Option LifecycleRequest)
    (replay : LifecycleRequest → Session Answer) (create : Session Answer)
    → ((r : LifecycleRequest) → Keeps IsAudited (replay r))
    → Leads (IsAuditedAt source) create (λ _ s. IsAudited s)
    → Leads (IsAuditedAt source) (replay_or_create existing replay create) (λ _ s. IsAudited s)
replay_or_create-IsAudited source none replay create kept created = created
replay_or_create-IsAudited source (some r) replay create kept created =
    Leads-from (kept r) (λ s q. q.audited)

-- A lifecycle request keeps the trail of every version complete: one that repeats another, and one
-- that cancels, retries, reprocesses or deletes a version.
pub lifecycle_request-IsAudited :
    (p : Principal) (k : Uuid) (operation : Operation) (key : String) (now n : ℕ)
    (profile : Option String) (ids : Ids)
    → Keeps IsAudited (lifecycle_request p k operation key now n profile ids)
unfolding lifecycle_request
lifecycle_request-IsAudited p k operation key now n profile ids =
    Leads-bind (get_version-IsAuditedAt p k true) (λ source.
      Leads-at (λ s. find (same_request p.tenant_id source.collection_id key) s.requests)
        (λ existing.
          replay_or_create-IsAudited source existing (replay_request p k source operation)
            (new_request p k source operation key now n profile ids)
            (replay_request-IsAudited p k source operation)
            (new_request-IsAudited p k source operation key now n profile ids)))
