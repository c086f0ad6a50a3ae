-- ===== src/Database/Session.antt =====
-- app/core/database.py: a statement block reads and writes the store and may raise; the
-- transaction around it commits its store or, if it raised, rolls back to the one before.
use atlas_rag.Common.{◌≡◌, refl, Bool, true, false, Option, none, some}
use atlas_rag.Common.Result.{Result, ok, err}
use atlas_rag.Catalog.StateMachine.{TransitionError}
use atlas_rag.Database.{Store}

pub data ConflictReason : Type 0 where
  illegal : TransitionError → ConflictReason
  changed_concurrently key_reused deletion_in_progress profile_required : ConflictReason
  same_profile active_replacement no_normalized_artifact registration : ConflictReason

pub data QuotaReason : Type 0 where
  upload_too_large document_quota storage_quota : QuotaReason

-- The constraint that an `IntegrityError` names.
pub data Constraint : Type 0 where
  event_key event_revision job_delivery active_delete : Constraint
  version_identity version_key request_key artifact_object_key attempt_number : Constraint
  collection_name source_key : Constraint
  chunk_source chunk_id chunk_ordinal chunk_missing : Constraint
  publication_external publication_active : Constraint

pub data ServiceError : Type 0 where
  not_found forbidden dependency : ServiceError
  conflict : ConflictReason → ServiceError
  quota : QuotaReason → ServiceError
  integrity : Constraint → ServiceError
  transition : TransitionError → ServiceError
  monotonic_trigger no_row invalid_job_identity fence_lost : ServiceError
  several_rows invalid_page_count not_awaiting_ocr : ServiceError
  not_awaiting_stage no_chunk_manifest no_embedding_manifest : ServiceError
  no_chunks embedding_count_differs no_chunk_artifact : ServiceError
  evidence_incomplete record_count_changed : ServiceError
  source_inactive source_unpublished source_incomplete source_not_activated : ServiceError
  targets_conflict source_not_promotable : ServiceError

abbrev pub Session : Type 0 → Type 0
Session A = Store → Result ServiceError (A × Store)

module _ {A : Type 0} where
  abbrev pub pure : A → Session A
  pure a s = ok (a, s)

  abbrev pub raise : ServiceError → Session A
  raise e s = err e

  abbrev pub gets : (Store → A) → Session A
  gets f s = ok (f s, s)

  -- A pure computation that may raise.
  abbrev pub lift : Result ServiceError A → Session A
  lift (ok a) s = ok (a, s)
  lift (err e) s = err e

  -- `one_or_none()` followed by `if row is None: raise`
  abbrev pub require : Option A → ServiceError → Session A
  require none e s = err e
  require (some a) e s = ok (a, s)

  -- `async with database.transaction()`
  unfoldable pub transaction : Session A → Store → Result ServiceError A × Store
  transaction block s = elim (block s) [ ok (a, s') ↦ (ok a, s') | err e ↦ (err e, s) ]

abbrev pub modify : (Store → Store) → Session (Unit {0})
modify f s = ok (tt, f s)

abbrev pub raise_when : Bool → ServiceError → Session (Unit {0})
raise_when true e s = err e
raise_when false e s = ok (tt, s)

infixl 5 ◌>>=◌ ◌>>◌
abbrev pub ◌>>=◌ : {A B : Type 0} → Session A → (A → Session B) → Session B
◌>>=◌ m f s = elim (m s) [ ok (a, s') ↦ f a s' | err e ↦ err e ]

abbrev pub ◌>>◌ : {B : Type 0} → Session (Unit {0}) → Session B → Session B
m >> k = m >>= λ _. k

bind_cases :
    {A B : Type 0} (r : Result ServiceError (A × Store)) (f : A → Session B) {b : B × Store}
    → elim r [ ok (a, s') ↦ f a s' | err e ↦ err e ] ≡ ok b
    → (a : A) × (s' : Store) × (r ≡ ok (a, s')) × (f a s' ≡ ok b)
bind_cases (ok (a, s')) f h = (a, s', refl, h)
bind_cases (err e) f h = cc

-- The parts of a block that ended without a raise.
pub bind-eq-ok :
    {A B : Type 0} (m : Session A) (f : A → Session B) (s : Store) {r : B × Store}
    → (m >>= f) s ≡ ok r
    → (a : A) × (s' : Store) × (m s ≡ ok (a, s')) × (f a s' ≡ ok r)
bind-eq-ok m f s h = bind_cases (m s) f h

-- One step of a block, where its first part is known.
pub bind_step :
    {A B : Type 0} (m : Session A) (f : A → Session B) (s : Store) {a : A} {s' : Store}
    → m s ≡ ok (a, s')
    → (m >>= f) s ≡ f a s'
bind_step m f s h = rw (h, ◌>>=◌)

-- A transaction commits what its block leaves, or nothing.
pub transaction-ok :
    {A : Type 0} (block : Session A) (s s' : Store) {a : A}
    → block s ≡ ok (a, s')
    → transaction block s ≡ (ok a, s')
unfolding transaction
transaction-ok block s s' h = rw (h, transaction) refl

pub transaction-err :
    {A : Type 0} (block : Session A) (s : Store) {e : ServiceError}
    → block s ≡ err e
    → transaction block s ≡ (err e, s)
unfolding transaction
transaction-err block s h = rw (h, transaction) refl
