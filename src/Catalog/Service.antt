-- ===== src/Catalog/Service.antt =====
-- app/services/catalog/service.py: `complete_upload`, which checks the uploaded file between two
-- transactions. What the object store answers is an argument, `between` is what others commit
-- meanwhile, and `dispatches` says whether the dispatcher takes a job.
pub mod Checked
use text.Mathlib.Text.{◌==◌ as str_eq}
use atlas_rag.Database.{Store, DocumentVersion, Uuid, Principal}
use atlas_rag.Common.{
  Option, Bool, List, String, some, any, if◌then◌else◌, ℕ, not, false, none, true,
}
use atlas_rag.Common.Result.{Result, ok, err}
use atlas_rag.Database.Session.{ServiceError, transaction}
use atlas_rag.Catalog.Operations.{Ids, complete_upload}
use atlas_rag.Catalog.Enums.{◌is◌, VersionState}
use atlas_rag.Catalog.Versions.{get_version}

-- What `verify_object` and `read_prefix` answer: `StorageIntegrityError`, an error of the client, or
-- the type and the first five bytes of the object. The type of a mismatch is not stored.
pub data Observation : Type 0 where
  mismatch unavailable : Observation
  object : (content_type : Option String) → (prefix : String) → Observation

-- `valid`, `reason_code` and `content_type`
abbrev pub Verdict : Type 0
Verdict = Bool × Option String × String

-- `metadata.content_type or ""`
abbrev pub type_of : Option String → String
type_of none = ""
type_of (some content_type) = content_type

unfoldable pub is_allowed : (allowed_mime_types : List String) → String → Bool
is_allowed allowed_mime_types content_type = any (λ t. str_eq t content_type) allowed_mime_types

unfoldable pub object_verdict :
    (allowed_mime_types : List String) → (content_type prefix : String) → Verdict
object_verdict allowed_mime_types content_type prefix =
    if not (is_allowed allowed_mime_types content_type)
    then (false, some "UPLOAD_MIME_UNSUPPORTED", content_type)
    else if not (str_eq prefix "%PDF-")
    then (false, some "PDF_MAGIC_INVALID", content_type)
    else (true, none, content_type)

abbrev pub verdict : (allowed_mime_types : List String) → Observation → Result ServiceError Verdict
verdict allowed_mime_types Observation.mismatch =
    ok (false, some "UPLOAD_INTEGRITY_MISMATCH", "application/pdf")
verdict allowed_mime_types Observation.unavailable = err ServiceError.dependency
verdict allowed_mime_types (Observation.object content_type prefix) =
    ok (object_verdict allowed_mime_types (type_of content_type) prefix)

abbrev pub CompletedUpload : Type 0
CompletedUpload = DocumentVersion × Option Uuid

-- `_dispatch`: the transaction before it stays committed.
abbrev pub dispatched :
    (dispatches : Uuid → Bool) → CompletedUpload → Result ServiceError CompletedUpload
dispatched dispatches (version, none) = ok (version, none)
dispatched dispatches (version, some job_id) =
    if dispatches job_id then ok (version, some job_id) else err ServiceError.dependency

-- The repeated completion dispatches a job only for a queued version.
abbrev pub dispatched_again :
    (dispatches : Uuid → Bool) → CompletedUpload → Result ServiceError CompletedUpload
dispatched_again dispatches (version, job_id) =
    if version.state is VersionState.queued
    then dispatched dispatches (version, job_id)
    else ok (version, job_id)

abbrev pub respond :
    (CompletedUpload → Result ServiceError CompletedUpload)
    → Result ServiceError CompletedUpload × Store
    → Result ServiceError CompletedUpload × Store
respond dispatch (err e, s) = (err e, s)
respond dispatch (ok completed, s) = (dispatch completed, s)

module _ (principal : Principal) (version_id : Uuid) (ids : Ids) (allowed_mime_types : List String)
    (observation : Observation) (dispatches : Uuid → Bool) (job_max_attempts : ℕ)
    (between : Store → Store) where
  -- The second transaction of an upload that was checked.
  unfoldable pub complete_checked :
      Result ServiceError Verdict → Store → Result ServiceError CompletedUpload × Store
  complete_checked (err e) s = (err e, s)
  complete_checked (ok (valid, reason_code, content_type)) s = respond (dispatched dispatches) (
      transaction
        (complete_upload principal version_id ids valid reason_code content_type job_max_attempts)
        (between s))

  unfoldable pub complete_again : Store → Result ServiceError CompletedUpload × Store
  complete_again s = respond (dispatched_again dispatches) (
      transaction
        (complete_upload principal version_id ids true none "application/pdf" job_max_attempts)
        (between s))

  abbrev pub complete_read :
      Result ServiceError DocumentVersion × Store → Result ServiceError CompletedUpload × Store
  complete_read (err e, s) = (err e, s)
  complete_read (ok version, s) =
      if not (version.state is VersionState.received)
      then complete_again s
      else complete_checked (verdict allowed_mime_types observation) s

  unfoldable pub service_complete_upload : Store → Result ServiceError CompletedUpload × Store
  service_complete_upload s = complete_read (transaction (get_version principal version_id true) s)
