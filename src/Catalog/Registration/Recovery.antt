-- ===== src/Catalog/Registration/Recovery.antt =====
-- app/services/catalog/repository.py and service.py: a registration that a constraint refuses, and the
-- two transactions of the service.
use atlas_rag.Common.{none, some, true, String, Option}
use atlas_rag.Database.{Principal, Uuid, DocumentVersion, Store}
use atlas_rag.Database.Session.{
  Session, pure, ServiceError, ◌>>=◌, ◌>>◌, gets, transaction, ConflictReason,
}
use atlas_rag.Common.Result.{Result, err, ok}
use atlas_rag.Catalog.Registration.{
  Registration, register_document, Existing, validate_idempotent_match, get_collection,
  get_idempotent_version,
}

abbrev pub recovered : Registration → Option Existing → Session (Option DocumentVersion)
recovered values none = pure none
recovered values (some existing) = do
  validate_idempotent_match existing values
  pure (some existing.0)

unfoldable pub recover_idempotent_registration :
    Principal
    → (collection_id : Uuid) → (idempotency_key : String) → Registration
    → Session (Option DocumentVersion)
recover_idempotent_registration principal collection_id idempotency_key values = do
  collection ← get_collection principal collection_id true
  existing ← gets (get_idempotent_version principal collection_id idempotency_key)
  recovered values existing

-- `if version is None: raise CatalogConflictError`
abbrev pub or_conflict :
    Result ServiceError (Option DocumentVersion) × Store
    → Result ServiceError DocumentVersion × Store
or_conflict (err e, s) = (err e, s)
or_conflict (ok none, s) = (err (ServiceError.conflict ConflictReason.registration), s)
or_conflict (ok (some v), s) = (ok v, s)

-- `except IntegrityError`: `between` is what others committed between the two transactions.
abbrev pub recover_from :
    (between : Store → Store)
    → (Store → Result ServiceError (Option DocumentVersion) × Store)
    → Result ServiceError DocumentVersion × Store
    → Result ServiceError DocumentVersion × Store
recover_from between recover (err (ServiceError.integrity c), s) = or_conflict (recover (between s))
recover_from between recover (r, s) = (r, s)

-- `CatalogService.register_document`: two transactions at most.
unfoldable pub service_register_document :
    Principal
    → (collection_id version_id document_id : Uuid) → (idempotency_key : String) → Registration
    → (between : Store → Store) → Store
    → Result ServiceError DocumentVersion × Store
service_register_document principal collection_id version_id document_id idempotency_key values
      between s =
    recover_from between
      (transaction (recover_idempotent_registration principal collection_id idempotency_key values))
      (transaction
        (register_document principal collection_id version_id document_id idempotency_key values) s)
