-- ===== src/Tests/System.antt =====
-- A document from its registration to the first attempt of a worker, which fails and is repeated.
use atlas_rag.Tests.Ingestion.{worker, attempt}
use atlas_rag.Tests.Registration.{registration, owner, values}
use atlas_rag.Catalog.Operations.{Ids}
use atlas_rag.Catalog.Registration.{CollectionRequest, create_collection, same_collection}
use atlas_rag.Common.{List, Option, ◌∷◌, true, some, [], none, sum_if, count_if, ◌≡◌, refl}
use atlas_rag.Database.{Store, DocumentVersion}
use atlas_rag.System.{execute_all, Command, new_database, execute, block}
use atlas_rag.Catalog.Transitions.Audit.{IsAudited}
use atlas_rag.System.Audited.{execute_all-IsAudited}
use atlas_rag.Catalog.Enums.{VersionState}
use atlas_rag.Database.Session.{transaction}
use atlas_rag.Ingestion.NativeJobs.Fence.{Ending}
use atlas_rag.Catalog.Versions.{find_version}

abbrev ids : Ids
ids = record { request_id = 30; job_id = 40; version_id = 50; artifact_id = 60 }

abbrev request : CollectionRequest
request = record {
  name = "manuals";
  retention_days = 30;
  document_quota = 2;
  storage_quota_bytes = 900;
}

abbrev commands : List Command
commands =
    Command.creation owner request 500 2
    ∷ Command.registration owner 2 7 8 "key" values
    ∷ Command.completion owner 7 ids true none "application/pdf" 3
    ∷ Command.claiming 1 7 40 "worker-1" 100 30
    ∷ Command.ending (Ending.retry "INGESTION_DEPENDENCY_UNAVAILABLE" 30)
        (record (attempt 1) { size_bytes = 400 }) "worker-1" 110
    ∷ Command.claiming 1 7 40 "worker-2" 120 30
    ∷ []

final_state : Option DocumentVersion → Option VersionState
final_state none = none
final_state (some v) = some v.state

abbrev final : Store
final = execute_all commands (new_database (1 ∷ []))

is_parsing : final_state (find_version 7 final.versions) ≡ some VersionState.parsing
unfolding registration worker execute_all execute block transaction final_state create_collection
    same_collection sum_if count_if
is_parsing = refl

execute_all-IsAudited_example : IsAudited final
execute_all-IsAudited_example = execute_all-IsAudited (1 ∷ []) commands
