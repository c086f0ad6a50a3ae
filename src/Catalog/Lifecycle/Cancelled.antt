-- ===== src/Catalog/Lifecycle/Cancelled.antt =====
-- app/services/catalog/operations_repository.py: what a cancellation does to the jobs.
use atlas_rag.Common.{◌&&◌, Bool, any, List}
use atlas_rag.Database.{IngestionJob, JobAttempt, Uuid}
use atlas_rag.Catalog.Lifecycle.{is_cancellable, is_open_attempt_of}

-- An attempt of a job that is being cancelled, not finished.
abbrev pub is_open_attempt : (tenant_id version_id : Uuid) → List IngestionJob → JobAttempt → Bool
is_open_attempt tenant_id version_id jobs a =
    any (λ j. is_cancellable tenant_id version_id j && is_open_attempt_of tenant_id j a) jobs
