-- ===== src/Tests/Service.antt =====
-- The upload of a PDF, checked and completed.
use atlas_rag.Tests.Catalog.{
  program, store, version, editor, ids, upload, version_of, store-IsAudited,
}
use atlas_rag.Catalog.Service.{
  Observation, service_complete_upload, complete_checked, object_verdict, is_allowed,
}
use atlas_rag.Common.{List, some, String, ◌∷◌, [], false, refl}
use atlas_rag.Database.Session.{transaction}
use atlas_rag.Catalog.Service.Checked.{IsPdf, service_complete_upload-IsPdf}

abbrev pdf : Observation
pdf = Observation.object (some "application/pdf") "%PDF-"

abbrev allowed : List String
allowed = "application/pdf" ∷ []

service_complete_upload-IsPdf_example : IsPdf allowed pdf
unfolding program service_complete_upload complete_checked object_verdict is_allowed transaction
service_complete_upload-IsPdf_example =
    service_complete_upload-IsPdf editor 7 ids allowed pdf (λ job_id. false) 3 (λ s. s) store
      version version (version_of upload) store-IsAudited refl refl refl refl refl refl
