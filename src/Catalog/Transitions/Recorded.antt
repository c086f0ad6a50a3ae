-- ===== src/Catalog/Transitions/Recorded.antt =====
-- app/services/catalog/operation_transitions.py: the row and the trail after a transition of the
-- API.
use atlas_rag.Common.{ℕ, suc, ◌≡◌, some, ◌∷◌, arith, Option, String, sym, ◌∙◌, refl, ap}
use atlas_rag.Database.{Store, DocumentVersion, Principal, EventKey, TransitionEvent, Uuid}
use atlas_rag.Catalog.Versions.{find_version, update_version, write_version}
use atlas_rag.Catalog.Transitions.{
  transition_catalog_version, insert_event, moved, snapshot_of, change_to, store_transition,
  api_event, illegal_conflict,
}
use atlas_rag.Catalog.Transitions.Audit.{
  IsAudited, IsMove, recorded_move, recorded_move-IsAudited, find-replace_self, find_version-id,
}
use atlas_rag.Catalog.StateMachine.{VersionSnapshot, Operation, transition_version}
use atlas_rag.Database.Session.{ServiceError, bind-eq-ok, ◌>>◌, lift, pure, ConflictReason}
use atlas_rag.Common.Result.{ok, Result, map_err, err}
use atlas_rag.Catalog.Enums.{VersionState}
use atlas_rag.Catalog.StateMachine.Accepted.{transition_version_iff, Accepted}

pub insert_event-ok :
    (e : TransitionEvent) (s s' : Store) (u : Unit {0})
    → insert_event e s ≡ ok (u, s')
    → s' ≡ record s { events = e ∷ s.events }
unfolding insert_event
insert_event-ok e s s' u h = ground arith

pub update_version-ok :
    (tenant_id k : Uuid) (revision : ℕ) (change : DocumentVersion → DocumentVersion)
    (missing : ServiceError) (s s' : Store) (v w : DocumentVersion)
    → find_version k s.versions ≡ some v
    → update_version tenant_id k revision change missing s ≡ ok (w, s')
    → (w ≡ change v)
      × (s' ≡ write_version k (change v) s)
      × (v.tenant_id ≡ tenant_id)
      × (v.state_revision ≡ revision)
unfolding update_version
update_version-ok tenant_id k revision change missing s s' v w f h = ground arith

pub lift-ok :
    {A : Type 0} (r : Result ServiceError A) (s s' : Store) (a : A)
    → lift r s ≡ ok (a, s')
    → (r ≡ ok a) × (s' ≡ s)
lift-ok (ok b) s s' a h = (ground arith, ground arith)
lift-ok (err e) s s' a h = cc

pub map_err-ok :
    {E F A : Type 0} (f : E → F) (r : Result E A) {a : A} → map_err f r ≡ ok a → r ≡ ok a
map_err-ok f (ok b) h = cc
map_err-ok f (err e) h = cc

pub log-ok :
    (e : TransitionEvent) (u w : DocumentVersion) (s s' : Store)
    → (insert_event e >> pure u) s ≡ ok (w, s')
    → (w ≡ u) × (s' ≡ record s { events = e ∷ s.events })
log-ok e u w s s' h =
    let (x, s1, inserted, returned) = bind-eq-ok (insert_event e) (λ _. pure u) s h in
    (cc, sym (insert_pure returned) ∙ insert_event-ok e s s1 x inserted)
  where
    insert_pure : {a b : DocumentVersion} {t t' : Store} → pure a t ≡ ok (b, t') → t ≡ t'
    insert_pure q = cc

-- What is known of a row from an earlier read: nobody has moved the version since.
pub record IsCurrent (read row : DocumentVersion) : Type 0 where
  pub same_state : row.state ≡ read.state
  pub same_revision : row.state_revision ≡ read.state_revision

-- What `store_transition` has done when it did not raise.
store_transition-ok :
    (p : Principal) (v row w : DocumentVersion) (operation : Operation) (key : EventKey)
    (t : VersionSnapshot) (s s' : Store)
    → find_version v.id s.versions ≡ some row
    → store_transition p v operation key t s ≡ ok (w, s')
    → (w ≡ moved t row) × (s' ≡ recorded_move v.id (moved t row) (api_event p v t operation key) s)
unfolding store_transition write_version
store_transition-ok p v row w operation key t s s' found h =
    let (u, s1, updated, logged) =
      bind-eq-ok
        (update_version p.tenant_id v.id v.state_revision (moved t)
          (ServiceError.conflict ConflictReason.changed_concurrently))
        (λ u. insert_event (api_event p v t operation key) >> pure u) s h in
    let (same, stored, _, _) = update_version-ok _ v.id _ (moved t) _ s s1 row u found updated in
    let (result, last) = log-ok (api_event p v t operation key) u w s1 s' logged in
    (result ∙ same, last ∙ rw stored refl)

-- The move that a transition of the state machine makes of a row.
transition_version-IsMove :
    (p : Principal) (v row : DocumentVersion) (target : VersionState) (operation : Operation)
    (reason : Option String) (key : EventKey) (t : VersionSnapshot)
    → row.id ≡ v.id
    → IsCurrent v row
    → transition_version (snapshot_of v) (change_to v target operation reason) ≡ ok t
    → IsMove v.id row (moved t row) (api_event p v t operation key) × (t.state ≡ target)
unfolding snapshot_of change_to moved api_event
transition_version-IsMove p v row target operation reason key t same_id current h =
    let (a, e) =
      (transition_version_iff (snapshot_of v) (change_to v target operation reason) t).0 h in
    let state : t.state ≡ target = ap (λ (x : VersionSnapshot). x.state) e in
    let revision : t.revision ≡ suc row.state_revision =
      ap (λ (x : VersionSnapshot). x.revision) e ∙ omega (arith, current.same_revision) in
    (
      record {
        same_id = same_id;
        next_revision = revision;
        about = refl;
        from_state = sym current.same_state;
        from_revision = sym current.same_revision;
        to_state = refl;
        to_revision = revision;
        legal = rw (state, current.same_state) a.legal;
      },
      state,
    )

-- What a transition of the API leaves behind: the row `w`, moved from `row`, and its event.
pub record IsTransition (p : Principal) (v row w : DocumentVersion) (target : VersionState)
    (operation : Operation) (key : EventKey) (s s' : Store) : Type 0 where
  pub snapshot : VersionSnapshot
  pub row_moved : w ≡ moved snapshot row
  pub stored : s' ≡ recorded_move v.id w (api_event p v snapshot operation key) s
  pub found : find_version v.id s'.versions ≡ some w
  pub state : w.state ≡ target
  pub next_revision : w.state_revision ≡ suc row.state_revision
  pub audited : IsAudited s'

-- A transition that the API made keeps every trail complete, leaves the version at the target, one
-- revision on, with no other column changed, and adds the one event that records the step. The row
-- that it read may be older, if nobody has moved the version since.
pub transition_catalog_version-IsTransition :
    (p : Principal) (v row w : DocumentVersion) (target : VersionState) (operation : Operation)
    (reason : Option String) (key : EventKey) (s s' : Store)
    → IsAudited s
    → find_version v.id s.versions ≡ some row
    → IsCurrent v row
    → transition_catalog_version p v target operation reason key s ≡ ok (w, s')
    → IsTransition p v row w target operation key s s'
unfolding transition_catalog_version
transition_catalog_version-IsTransition p v row w target operation reason key s s' audited found
      current h =
    let (t, s1, transitioned, stored) =
      bind-eq-ok
        (lift (
          map_err illegal_conflict
            (transition_version (snapshot_of v) (change_to v target operation reason))))
        (store_transition p v operation key) s h in
    let (accepted, same_store) = lift-ok _ s s1 t transitioned in
    let (move, state) =
      transition_version-IsMove p v row target operation reason key t
        (find_version-id v.id s.versions row found) current (map_err-ok _ _ accepted) in
    let (same, store) =
      store_transition-ok p v row w operation key t s s' found (rw same_store at stored) in
    record {
      snapshot = t;
      row_moved = same;
      stored = rw (store, same) refl;
      found =
          rw (store, same) (find-replace_self v.id (moved t row) s.versions row move.same_id found);
      state = rw same (unfold moved in state);
      next_revision = rw same move.next_revision;
      audited = rw store (
          recorded_move-IsAudited s v.id row (moved t row) (api_event p v t operation key) audited
            found move);
    }
