-- ===== src/Ingestion/NativeJobs/Audited.antt =====
-- app/services/ingestion/repository_support.py: a transition of a worker, and the statements around
-- it, among the trails of the versions.
pub mod Claiming
pub mod Ending
use atlas_rag.Catalog.Transitions.Kept.{IsAuditedAt, read-IsAuditedAt}
use atlas_rag.Catalog.Transitions.{transition_event, insert_event}
use atlas_rag.Ingestion.NativeJobs.{
  worker_transition, store_worker_transition, worker_snapshot, worker_moved, worker_change,
}
use atlas_rag.Catalog.Transitions.Recorded.{
  lift-ok, IsCurrent, map_err-ok, update_version-ok, log-ok,
}
use atlas_rag.Database.{DocumentVersion, EventKey, TransitionEvent, Store, Actor}
use atlas_rag.Catalog.Enums.{VersionState}
use atlas_rag.Catalog.Versions.{write_version, find_version, update_version}
use atlas_rag.Catalog.StateMachine.{
  VersionSnapshot, Operation, PublicationEvidence, transition_version,
}
use atlas_rag.Common.{String, Option, ◌≡◌, some, ap, suc, ◌∙◌, arith, sym, refl}
use atlas_rag.Database.Leads.{Leads}
use atlas_rag.Database.Session.{bind-eq-ok, lift, ServiceError, ◌>>◌, pure}
use atlas_rag.Common.Result.{ok, map_err}
use atlas_rag.Catalog.Transitions.Audit.{
  recorded_move, IsMove, find_version-id, recorded_move-IsAudited, find-replace_self,
}
use atlas_rag.Catalog.StateMachine.Accepted.{transition_version_iff, Accepted}

worker_event :
    DocumentVersion
    → VersionState
    → VersionSnapshot
    → (worker_id : String) → EventKey
    → TransitionEvent
worker_event v target t worker_id key =
    transition_event v.tenant_id v (record t { state = target }) Operation.advance key
      (Actor.worker worker_id)

-- What `store_worker_transition` has done when it did not raise.
store_worker_transition-ok :
    (v row w : DocumentVersion) (target : VersionState) (worker_id : String) (key : EventKey)
    (reason : Option String) (t : VersionSnapshot) (s s' : Store)
    → find_version v.id s.versions ≡ some row
    → store_worker_transition v target worker_id key reason t s ≡ ok (w, s')
    → (w ≡ worker_moved t reason row)
      × (s'
          ≡ recorded_move v.id
              (worker_moved t reason row)
              (worker_event v target t worker_id key)
              s)
unfolding store_worker_transition write_version worker_event
store_worker_transition-ok v row w target worker_id key reason t s s' found h =
    let (u, s1, updated, logged) =
      bind-eq-ok
        (update_version v.tenant_id v.id v.state_revision (worker_moved t reason)
          ServiceError.no_row)
        (λ u. insert_event (worker_event v target t worker_id key) >> pure u) s h in
    let (same, stored, _, _) =
      update_version-ok _ v.id _ (worker_moved t reason) _ s s1 row u found updated in
    let (result, last) = log-ok (worker_event v target t worker_id key) u w s1 s' logged in
    (result ∙ same, last ∙ rw stored refl)

worker_transition-IsMove :
    (v row : DocumentVersion) (target : VersionState) (worker_id : String) (key : EventKey)
    (reason : Option String) (evidence : Option PublicationEvidence) (t : VersionSnapshot)
    → row.id ≡ v.id
    → IsCurrent v row
    → transition_version (worker_snapshot v) (worker_change v target reason evidence) ≡ ok t
    → IsMove v.id row (worker_moved t reason row) (worker_event v target t worker_id key)
unfolding worker_snapshot worker_change worker_moved worker_event transition_event
worker_transition-IsMove v row target worker_id key reason evidence t same_id current h =
    let (a, e) =
      (transition_version_iff (worker_snapshot v) (worker_change v target reason evidence) t).0 h in
    let state : t.state ≡ target = ap (λ (x : VersionSnapshot). x.state) e in
    let revision : t.revision ≡ suc row.state_revision =
      ap (λ (x : VersionSnapshot). x.revision) e ∙ omega (arith, current.same_revision) in
    record {
      same_id = same_id;
      next_revision = revision;
      about = refl;
      from_state = sym current.same_state;
      from_revision = sym current.same_revision;
      to_state = sym state;
      to_revision = revision;
      legal = rw (state, current.same_state) a.legal;
    }

-- What a transition of a worker has done when it did not raise.
pub record IsWorkerMove (v w : DocumentVersion) (target : VersionState) (reason : Option String)
    (evidence : Option PublicationEvidence) (s s' : Store) : Type 0 where
  pub at_version : IsAuditedAt w s'
  pub event : TransitionEvent
  pub stored : s' ≡ recorded_move v.id w event s
  pub found : find_version v.id s'.versions ≡ some w
  pub state_reached : w.state ≡ target
  pub same_id : w.id ≡ v.id
  pub accepted : Accepted (worker_snapshot v) (worker_change v target reason evidence)

pub worker_transition-IsWorkerMove :
    (v w : DocumentVersion) (target : VersionState) (worker_id : String) (key : EventKey)
    (reason : Option String) (evidence : Option PublicationEvidence) (s s' : Store)
    → IsAuditedAt v s
    → worker_transition v target worker_id key reason evidence s ≡ ok (w, s')
    → IsWorkerMove v w target reason evidence s s'
unfolding worker_transition worker_moved worker_change
worker_transition-IsWorkerMove v w target worker_id key reason evidence s s' at_v h =
    let (t, s1, transitioned, stored) =
      bind-eq-ok
        (lift (
          map_err ServiceError.transition
            (transition_version (worker_snapshot v) (worker_change v target reason evidence))))
        (store_worker_transition v target worker_id key reason) s h in
    let (accepted, same_store) = lift-ok _ s s1 t transitioned in
    let id = find_version-id v.id s.versions at_v.row at_v.found in
    let done = map_err-ok _ _ accepted in
    let (conditions, result) =
      (transition_version_iff (worker_snapshot v) (worker_change v target reason evidence) t).0
        done in
    let move =
      worker_transition-IsMove v at_v.row target worker_id key reason evidence t id at_v.current
        done in
    let e : TransitionEvent = worker_event v target t worker_id key in
    let new : DocumentVersion = worker_moved t reason at_v.row in
    let (same, store) =
      store_worker_transition-ok v at_v.row w target worker_id key reason t s s' at_v.found
        (rw same_store at stored) in
    let found : find_version v.id s'.versions ≡ some w =
      rw (store, same) (find-replace_self v.id new s.versions at_v.row move.same_id at_v.found) in
    record {
      at_version =
          read-IsAuditedAt w v.id s'
            (rw store (recorded_move-IsAudited s v.id at_v.row new e at_v.audited at_v.found move))
            found;
      event = e;
      stored = rw (store, same) refl;
      found = found;
      state_reached = rw same (ap (λ (x : VersionSnapshot). x.state) result);
      same_id = rw same move.same_id;
      accepted = conditions;
    }

-- A transition of a worker, by the row that the block has read.
pub worker_transition-IsAuditedAt :
    (v : DocumentVersion) (target : VersionState) (worker_id : String) (key : EventKey)
    (reason : Option String) (evidence : Option PublicationEvidence)
    → Leads (IsAuditedAt v) (worker_transition v target worker_id key reason evidence) IsAuditedAt
worker_transition-IsAuditedAt v target worker_id key reason evidence = record {
  leads = λ s s' w at_v h.
      let moved =
        worker_transition-IsWorkerMove v w target worker_id key reason evidence s s' at_v h in
      moved.at_version;
}
