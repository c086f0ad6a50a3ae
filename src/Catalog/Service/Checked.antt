-- ===== src/Catalog/Service/Checked.antt =====
-- app/services/catalog/service.py: which uploads are accepted.
use atlas_rag.Catalog.Service.{
  Observation, object_verdict, verdict, is_allowed, type_of, str_eq, CompletedUpload,
  service_complete_upload, complete_checked, respond,
}
use atlas_rag.Common.{
  List, String, Option, ◌≡◌, true, Bool-cases, refl, inr, arith, inl, ◌⊎◌, ap, Bool, ℕ, some, ◌≢◌,
  sym, ◌∙◌,
}
use atlas_rag.Common.Result.{ok, Result, err}
use atlas_rag.Database.{Uuid, Principal, Store, DocumentVersion}
use atlas_rag.Database.Session.{ServiceError, transaction, transaction-err, Session, transaction-ok}
use atlas_rag.Catalog.Operations.{Ids, complete_upload}
use atlas_rag.Catalog.Versions.{find_version, get_version}
use atlas_rag.Catalog.Transitions.Audit.{IsAudited, some-eq, find_version-id}
use atlas_rag.Catalog.Enums.{VersionState, ◌is◌}
use atlas_rag.Catalog.Operations.Completed.{Completion, complete_upload-IsCompleted}
use atlas_rag.Catalog.Operations.Uploads.{get_version-ok}

-- An object that is a PDF by its type and by its first bytes.
pub IsPdf : List String → Observation → Type 0
IsPdf allowed observation =
    (content_type : Option String) × (prefix : String) × (observation
      ≡ Observation.object content_type prefix)
    × (is_allowed allowed (type_of content_type) ≡ true)
    × (str_eq prefix "%PDF-" ≡ true)

object_verdict-valid :
    (allowed : List String) (content_type prefix : String) (reason : Option String)
    (stored_type : String)
    → object_verdict allowed content_type prefix ≡ (true, reason, stored_type)
    → (is_allowed allowed content_type ≡ true) × (str_eq prefix "%PDF-" ≡ true)
unfolding object_verdict
object_verdict-valid allowed content_type prefix reason stored_type h =
    elim (Bool-cases (is_allowed allowed content_type)) [
      | inr refused ↦ absurd (ground arith)
      | inl permitted ↦ elim (Bool-cases (str_eq prefix "%PDF-")) [
        | inl begins ↦ (permitted, begins)
        | inr other ↦ absurd (ground arith)
      ]
    ]

verdict-IsPdf :
    (allowed : List String) (observation : Observation) (reason : Option String)
    (content_type : String)
    → verdict allowed observation ≡ ok (true, reason, content_type)
    → IsPdf allowed observation
unfolding IsPdf
verdict-IsPdf allowed Observation.mismatch reason content_type h = absurd (cc)
verdict-IsPdf allowed Observation.unavailable reason content_type h = absurd (cc)
verdict-IsPdf allowed (Observation.object found prefix) reason content_type h =
    let (permitted, begins) =
      object_verdict-valid allowed (type_of found) prefix reason content_type (cc) in
    (found, prefix, refl, permitted, begins)

respond-store :
    (f : CompletedUpload → Result ServiceError CompletedUpload)
    (r : Result ServiceError CompletedUpload × Store)
    → (respond f r).1 ≡ r.1
respond-store f (ok completed, s) = refl
respond-store f (err e, s) = refl

outcomes :
    {A : Type 0} (r : Result ServiceError A)
    → ((a : A) × (r ≡ ok a)) ⊎ ((e : ServiceError) × (r ≡ err e))
outcomes (ok a) = inl (a, refl)
outcomes (err e) = inr (e, refl)

second : {A : Type 0} {r r' : Result ServiceError A × Store} → r ≡ r' → r.1 ≡ r'.1
second e = ap (λ r. r.1) e

still_received :
    (k : Uuid) (s : Store) (row w : DocumentVersion)
    → find_version k s.versions ≡ some row
    → row.state ≡ VersionState.received
    → find_version k s.versions ≡ some w
    → w.state ≢ VersionState.queued
still_received k s row w found received again queued =
    let same : row ≡ w = some-eq (sym found ∙ again) in
    let state : VersionState.received ≡ VersionState.queued =
      sym received ∙ ap (λ (v : DocumentVersion). v.state) same ∙ queued in
    absurd (cc)

-- The completion of a version that is still received queues it only if it was valid.
complete_upload-valid :
    (p : Principal) (k : Uuid) (ids : Ids) (valid : Bool) (reason : Option String)
    (content_type : String) (n : ℕ) (s : Store) (row w : DocumentVersion)
    → IsAudited s
    → find_version k s.versions ≡ some row
    → row.state ≡ VersionState.received
    → find_version k
        (transaction (complete_upload p k ids valid reason content_type n) s).1.versions
      ≡ some w
    → w.state ≡ VersionState.queued
    → valid ≡ true
complete_upload-valid p k ids valid reason content_type n s row w audited found received after
      queued =
    let block : Session CompletedUpload = complete_upload p k ids valid reason content_type n in
    elim (outcomes (block s)) [
      | inr (e, raised) ↦ absurd (
          still_received k s row w found received
            (rw (second (transaction-err block s raised)) at after) queued)
      | inl (((x, j), s'), committed) ↦
          let (v, c) =
            complete_upload-IsCompleted p k ids valid reason content_type n s s' x j audited
              committed in
          let is_row : row ≡ v = some-eq (sym found ∙ c.read) in
          let id : x.id ≡ k = c.stored.same_id ∙ find_version-id k s.versions v c.read in
          let stored : find_version k s'.versions ≡ some x =
            sym (ap (λ i. find_version i s'.versions) id) ∙ c.stored.found in
          let is_w : x ≡ w =
            some-eq (sym stored ∙ rw (second (transaction-ok block s s' committed)) at after) in
          let at_row : v.state ≡ VersionState.received = rw (← is_row) received in
          let at_w : x.state ≡ VersionState.queued = rw is_w queued in
          Completion-valid p k valid v x j s s' at_row at_w c.outcome
    ]
  where
    Completion-valid :
        (p : Principal) (k : Uuid) (valid : Bool) (v x : DocumentVersion) (j : Option Uuid)
        (s s' : Store)
        → v.state ≡ VersionState.received
        → x.state ≡ VersionState.queued
        → Completion p k valid v x j s s'
        → valid ≡ true
    Completion-valid p k valid v x j s s' a b (Completion.queued c is_valid d e) = is_valid
    Completion-valid p k valid v x j s s' a b (Completion.rejected c d state e) = absurd (cc)
    Completion-valid p k valid v x j s s' a b (Completion.repeated other c d e) = absurd (other a)

-- An upload is queued only if the object store holds a PDF: its type is one that is allowed, and
-- it begins with the bytes of a PDF. This is said of a version that the service read as received
-- and that nobody completed meanwhile, whether the job is then dispatched or not.
pub service_complete_upload-IsPdf :
    (p : Principal) (k : Uuid) (ids : Ids) (allowed : List String) (observation : Observation)
    (dispatches : Uuid → Bool) (n : ℕ) (between : Store → Store) (s : Store)
    (v row w : DocumentVersion)
    → IsAudited (between s)
    → find_version k s.versions ≡ some v
    → v.state ≡ VersionState.received
    → find_version k (between s).versions ≡ some row
    → row.state ≡ VersionState.received
    → find_version k
        (service_complete_upload p k ids allowed observation dispatches n between s).1.versions
      ≡ some w
    → w.state ≡ VersionState.queued
    → IsPdf allowed observation
unfolding service_complete_upload complete_checked ◌is◌
service_complete_upload-IsPdf p k ids allowed observation dispatches n between s v row w audited
      read received found still after queued =
    elim (outcomes (get_version p k true s)) [
      | inr (e, raised) ↦ absurd (
          still_received k s v w read received
            (rw (transaction-err (get_version p k true) s raised) at after) queued)
      | inl ((x, s1), given) ↦
          let (same, got, owner, member) = get_version-ok p k true s s1 x given in
          let is_v : v ≡ x = some-eq (sym read ∙ got) in
          let state : x.state ≡ VersionState.received = rw (← is_v) received in
          let start = rw (transaction-ok (get_version p k true) s s1 given, state, same) at after in
          elim (outcomes (verdict allowed observation)) [
            | inr (e, unavailable) ↦
                absurd (still_received k s v w read received (rw unavailable at start) queued)
            | inl ((valid, reason, content_type), judged) ↦
                let ended = rw (judged, respond-store) at start in
                let accepted : valid ≡ true =
                  complete_upload-valid p k ids valid reason content_type n (between s) row w
                    audited found still ended queued in
                verdict-IsPdf allowed observation reason content_type (rw accepted at judged)
          ]
    ]
