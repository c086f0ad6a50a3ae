-- ===== src/Tests/Registration.antt =====
-- The registration of a document in a collection that is empty.
use atlas_rag.Tests.Catalog.{program}
use atlas_rag.Database.{
  Principal, Collection, Membership, Store, SourceDocument, DocumentVersion, CollectionRole,
  VersionKey,
}
use atlas_rag.Catalog.Registration.{
  Registration, register_new, register_document, check_quotas, storage_bytes, document_count,
  get_or_create_document, create_document, insert_document, in_collection, has_source, new_document,
  store_version, registered_version, get_collection, find_collection, get_idempotent_version,
  is_keyed, document_of, matches_request, is_stored_of,
}
use atlas_rag.Common.{any, ◌∷◌, find, ◌≡◌, ◌≤◌, [], none, refl, arith, sum_if, count_if}
use atlas_rag.Catalog.Versions.{find_version}
use atlas_rag.Catalog.Registration.Quotas.{IsWithin, IsKeyed, register_new-IsWithin}
use atlas_rag.Catalog.Transitions.Audit.{IsAudited, trail_of}
use atlas_rag.Catalog.Registration.Trails.{register_new-IsAudited, register_new-IsKeyed}
use atlas_rag.Common.Result.{ok}
use atlas_rag.Catalog.Enums.{VersionState}
use atlas_rag.Common.Int.{pos}
use atlas_rag.Catalog.Reprocessing.{of_document, max_version_number, insert_version, clashes}

abbrev pub owner : Principal
owner = record { subject = "owner"; tenant_id = 1 }

abbrev collection : Collection
collection = record {
  id = 2;
  tenant_id = 1;
  name = "manuals";
  retention_days = 30;
  upload_max_bytes = 500;
  document_quota = 2;
  storage_quota_bytes = 900;
}

abbrev membership : Membership
membership = record {
  tenant_id = 1;
  collection_id = 2;
  principal_subject = "owner";
  role = CollectionRole.owner;
}

abbrev empty : Store
empty = record {
  tenants = 1 ∷ [];
  collections = collection ∷ [];
  memberships = membership ∷ [];
  documents = [];
  versions = [];
  events = [];
  jobs = [];
  attempts = [];
  requests = [];
  artifacts = [];
  chunks = [];
  embeddings = [];
  publications = [];
  cleanups = [];
}

abbrev pub values : Registration
values = record {
  source_key = "guide";
  display_name = "Guide";
  content_sha256 = "aa";
  size_bytes = 400;
  pipeline_profile = "default";
  object_key = "documents/7";
}

abbrev document : SourceDocument
document = record {
  id = 8;
  tenant_id = 1;
  collection_id = 2;
  source_key = "guide";
  display_name = "Guide";
}

abbrev pub version : DocumentVersion
version = record {
  id = 7;
  tenant_id = 1;
  collection_id = 2;
  document_id = 8;
  version_number = 1;
  idempotency_key = VersionKey.client "key";
  content_sha256 = "aa";
  size_bytes = 400;
  page_count = none;
  detected_mime = none;
  object_key = "documents/7";
  source_uri_policy = "direct_upload_only";
  pipeline_profile = "default";
  state = VersionState.received;
  state_revision = 0;
  progress_completed = pos 0;
  progress_total = pos 0;
  terminal_reason_code = none;
  reprocessed_from_version_id = none;
}

abbrev stored : Store
stored = record empty { documents = document ∷ []; versions = version ∷ [] }

unfoldable pub registration : Unit {0}
unfolding program is_stored_of register_new check_quotas storage_bytes document_count
    get_or_create_document create_document insert_document in_collection has_source new_document
    store_version registered_version of_document max_version_number insert_version clashes
    register_document get_collection find_collection get_idempotent_version is_keyed document_of
    matches_request
registration = tt

empty-IsKeyed : IsKeyed empty
unfolding any
empty-IsKeyed = record { distinct = tt; foreign = λ k h. refl }

empty-IsAudited : IsAudited empty
unfolding find_version find trail_of
empty-IsAudited = record { trail = λ k v h. absurd (ground arith); no_orphan = λ k h. refl }

is_new : register_new owner 2 7 8 "key" values collection empty ≡ ok (version, stored)
unfolding registration sum_if count_if
is_new = refl

register_new-IsWithin_example : IsWithin 1 collection stored × (400 ≤ 500)
unfolding registration sum_if count_if
register_new-IsWithin_example =
    register_new-IsWithin owner 7 8 "key" values collection empty stored version empty-IsKeyed
      (record { documents = omega arith; storage = omega arith }) is_new

register_new-IsAudited_example : IsAudited stored
register_new-IsAudited_example =
    register_new-IsAudited owner 2 7 8 "key" values collection empty stored version empty-IsAudited
      is_new

register_new-IsKeyed_example : IsKeyed stored
register_new-IsKeyed_example =
    register_new-IsKeyed owner 2 7 8 "key" values collection empty stored version empty-IsKeyed
      is_new

abbrev older : Store
older = record stored {
  versions = (record version { idempotency_key = VersionKey.client "older" }) ∷ [];
}
