-- ===== src/Ingestion/Publication/Joined/Statements.antt =====
-- app/services/ingestion/repository_support.py, app/services/catalog/repository.py: the statements
-- that leave the chunks and the publications alone.
use atlas_rag.Common.{
  ℕ, String, ◌≡◌, Bool-cases, any, Option-cases, inl, Option, arith, refl, inr, some, none,
}
use atlas_rag.Ingestion.NativeJobs.Finish.{
  locked_job_version, locked_row, insert_or_reuse, create_next_job, next_job,
}
use atlas_rag.Ingestion.NativeJobs.{ClaimedNativeJob, worker_transition, store_worker_transition}
use atlas_rag.Database.{
  Artifact, IngestionJob, TransitionEvent, Store, DocumentVersion, EventKey, Uuid,
}
use atlas_rag.Catalog.Transitions.{
  insert_job, insert_event, key_taken, is_delivery_of, revision_taken,
}
use atlas_rag.Catalog.Versions.{update_version, write_version, matching, find_version, is_monotonic}
use atlas_rag.Database.Leads.{Keeps, Leads-bind, Leads-lift, Leads-pure, Leads-modify}
use atlas_rag.Ingestion.Publication.Joined.{IsJoined, other_tables-IsJoined}
use atlas_rag.Catalog.Operations.{insert_artifact}
use atlas_rag.Database.Session.{ServiceError}
use atlas_rag.Catalog.Enums.{VersionState, IngestionStage}
use atlas_rag.Common.Result.{ok}
use atlas_rag.Catalog.Operations.Uploads.{insert_artifact-ok}
use atlas_rag.Catalog.StateMachine.{PublicationEvidence}

locked_job_version-same :
    (job : ClaimedNativeJob) (worker_id : String) (s s' : Store) (v : DocumentVersion)
    → locked_job_version job worker_id s ≡ ok (v, s')
    → s' ≡ s
unfolding locked_job_version
locked_job_version-same job worker_id s s' v h = elim (Option-cases (locked_row job s)) [
  | inl nothing ↦ absurd (ground arith)
  | inr (row, found) ↦ ground arith
]

pub locked_job_version-IsJoined :
    (job : ClaimedNativeJob) (worker_id : String)
    → Keeps IsJoined (locked_job_version job worker_id)
locked_job_version-IsJoined job worker_id = record {
  leads = λ s s' v p h. rw (locked_job_version-same job worker_id s s' v h) p;
}

pub insert_artifact-IsJoined : (new : Artifact) → Keeps IsJoined (insert_artifact new)
insert_artifact-IsJoined new = record {
  leads = λ s s' a p h.
      let (artifacts, e) = insert_artifact-ok new s s' a h in
      other_tables-IsJoined s s' (rw e refl) (rw e refl) p;
}

pub insert_job-IsJoined : (new : IngestionJob) → Keeps IsJoined (insert_job new)
unfolding insert_job
insert_job-IsJoined new = record {
  leads = λ s s' a p h. elim (Bool-cases (any (is_delivery_of new) s.jobs)) [
    | inl delivered ↦ absurd (ground arith)
    | inr fresh ↦ other_tables-IsJoined s s' (ground arith) (ground arith) p
  ];
}

pub update_version-IsJoined :
    (t k r : ℕ) (change : DocumentVersion → DocumentVersion) (missing : ServiceError)
    → Keeps IsJoined (update_version t k r change missing)
unfolding update_version write_version
update_version-IsJoined t k r change missing = record {
  leads = λ s s' a p h. elim (Option-cases (matching t r (find_version k s.versions))) [
    | inl nothing ↦ absurd (ground arith)
    | inr (old, found) ↦ elim (Bool-cases (is_monotonic old (change old))) [
      | inl rising ↦ other_tables-IsJoined s s' (ground arith) (ground arith) p
      | inr falling ↦ absurd (ground arith)
    ]
  ];
}

pub insert_event-IsJoined : (new : TransitionEvent) → Keeps IsJoined (insert_event new)
unfolding insert_event
insert_event-IsJoined new = record {
  leads = λ s s' a p h. elim (Bool-cases (key_taken new s.events)) [
    | inl keyed ↦ absurd (ground arith)
    | inr free ↦ elim (Bool-cases (revision_taken new s.events)) [
      | inl taken ↦ absurd (ground arith)
      | inr next ↦ other_tables-IsJoined s s' (ground arith) (ground arith) p
    ]
  ];
}

pub worker_transition-IsJoined :
    (v : DocumentVersion) (target : VersionState) (worker_id : String) (key : EventKey)
    (reason : Option String) (evidence : Option PublicationEvidence)
    → Keeps IsJoined (worker_transition v target worker_id key reason evidence)
unfolding worker_transition store_worker_transition
worker_transition-IsJoined v target worker_id key reason evidence =
    Leads-bind (Leads-lift _ (λ a s p. p)) (λ t.
      Leads-bind (update_version-IsJoined _ _ _ _ _)
        (λ u. Leads-bind (insert_event-IsJoined _) (λ _. Leads-pure u (λ s p. p))))

insert_or_reuse-IsJoined :
    (new : IngestionJob) (present : Option IngestionJob)
    → Keeps IsJoined (insert_or_reuse new present)
insert_or_reuse-IsJoined new none =
    Leads-bind (Leads-modify _ (λ s p. other_tables-IsJoined s _ refl refl p))
      (λ _. Leads-pure new.id (λ s p. p))
insert_or_reuse-IsJoined new (some j) = Leads-pure j.id (λ s p. p)

pub create_next_job-IsJoined :
    (job : ClaimedNativeJob) (stage : IngestionStage) (n : ℕ) (k : Uuid)
    → Keeps IsJoined (create_next_job job stage n k)
unfolding create_next_job next_job
create_next_job-IsJoined job stage n k = record {
  leads = λ s s' a p h. (insert_or_reuse-IsJoined _ _).leads s s' a p h;
}
