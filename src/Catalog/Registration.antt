-- ===== src/Catalog/Registration.antt =====
-- app/services/catalog/repository.py, document_registration.py and service.py: collections, and the
-- registration of a document version under the quotas of its collection. The primary keys of the
-- tables make every look-up by `id` find one row at most. The presigned upload that the service
-- adds to its answer is the object store's.
pub mod Recovery
pub mod Registered
pub mod Quotas
pub mod Repeated
pub mod Trails
use text.Mathlib.Text.{◌==◌ as str_eq}
use atlas_rag.Common.{
  ◌==◌, if◌then◌else◌, [], ◌∷◌, none, some, true, false, String, List, Bool, Option, ℕ, ◌||◌, find,
  ◌&&◌, not, sum_if, count_if, ltb, any, leb, suc, ◌+◌,
}
use atlas_rag.Database.{
  Principal, Collection, Uuid, DocumentVersion, SourceDocument, Store, Membership, VersionKey,
  CollectionRole,
}
use atlas_rag.Database.Session.{
  Session, raise_when, pure, ServiceError, ◌>>=◌, ◌>>◌, gets, transaction, require, ConflictReason,
  QuotaReason, Constraint, modify,
}
use atlas_rag.Common.Result.{Result, err, ok}
use atlas_rag.Catalog.Versions.{is_member}
use atlas_rag.Catalog.Reprocessing.{of_document, max_version_number, insert_version}
use atlas_rag.Catalog.Enums.{VersionState, ◌is◌}
use atlas_rag.Common.Int.{pos}

-- `values` of `create_collection`
pub record CollectionRequest : Type 0 where
  pub name : String
  pub retention_days : ℕ
  pub document_quota : ℕ
  pub storage_quota_bytes : ℕ

new_collection : Principal → CollectionRequest → (upload_max_bytes : ℕ) → Uuid → Collection
new_collection principal values upload_max_bytes collection_id = record {
  id = collection_id;
  tenant_id = principal.tenant_id;
  name = values.name;
  retention_days = values.retention_days;
  upload_max_bytes = upload_max_bytes;
  document_quota = values.document_quota;
  storage_quota_bytes = values.storage_quota_bytes;
}

owner_membership : Principal → Uuid → Membership
owner_membership principal collection_id = record {
  tenant_id = principal.tenant_id;
  collection_id = collection_id;
  principal_subject = principal.subject;
  role = CollectionRole.owner;
}

-- `uq_collections_tenant_name` and the primary key
unfoldable pub same_collection : Collection → Collection → Bool
same_collection new c =
    (c.id == new.id) || ((c.tenant_id == new.tenant_id) && str_eq c.name new.name)

unfoldable pub create_collection :
    Principal
    → CollectionRequest
    → (upload_max_bytes : ℕ) → (collection_id : Uuid) → Session Collection
unfolding new_collection owner_membership
create_collection principal values upload_max_bytes collection_id = do
  tenant_exists ← gets (λ s. any (λ t. t == principal.tenant_id) s.tenants)
  raise_when (not tenant_exists) ServiceError.forbidden
  let new = new_collection principal values upload_max_bytes collection_id
  taken ← gets (λ s. any (same_collection new) s.collections)
  raise_when taken (ServiceError.integrity Constraint.collection_name)
  modify (λ s. record s {
    collections = new ∷ s.collections;
    memberships = owner_membership principal collection_id ∷ s.memberships;
  })
  pure new

unfoldable pub find_collection : Principal → Uuid → Store → Option Collection
find_collection principal collection_id s =
    find (λ c. (c.tenant_id == principal.tenant_id) && (c.id == collection_id)) s.collections

abbrev pub readable : Principal → Bool → Store → Option Collection → Option Collection
readable principal require_editor s none = none
readable principal require_editor s (some c) =
    if is_member principal require_editor c.id s.memberships then some c else none

unfoldable pub get_collection : Principal → Uuid → (require_editor : Bool) → Session Collection
get_collection principal collection_id require_editor = do
  row ← gets (λ s. readable principal require_editor s (find_collection principal collection_id s))
  require row ServiceError.not_found

-- `values` of `register_document`, with the object key that the service adds.
pub record Registration : Type 0 where
  pub source_key : String
  pub display_name : String
  pub content_sha256 : String
  pub size_bytes : ℕ
  pub pipeline_profile : String
  pub object_key : String

unfoldable pub in_collection : (tenant_id collection_id : Uuid) → SourceDocument → Bool
in_collection tenant_id collection_id d =
    (d.tenant_id == tenant_id) && (d.collection_id == collection_id)

abbrev pub has_key : String → VersionKey → Bool
has_key key (VersionKey.client k) = str_eq k key
has_key key (VersionKey.reprocess r) = false

-- The condition of `get_idempotent_version`. A key that the client chose is compared with the
-- client's keys: the keys of the reprocessing are of another form.
unfoldable pub is_keyed : Principal → Uuid → String → DocumentVersion → Bool
is_keyed principal collection_id idempotency_key v =
    (v.tenant_id == principal.tenant_id)
    && (v.collection_id == collection_id)
    && has_key idempotency_key v.idempotency_key

unfoldable pub document_of : DocumentVersion → List SourceDocument → Option SourceDocument
document_of v = find (λ d. in_collection v.tenant_id v.collection_id d && (d.id == v.document_id))

abbrev pub Existing : Type 0
Existing = DocumentVersion × String

abbrev pub with_source : DocumentVersion → Option SourceDocument → Option Existing
with_source v none = none
with_source v (some d) = some (v, d.source_key)

abbrev pub join_source : List SourceDocument → Option DocumentVersion → Option Existing
join_source documents none = none
join_source documents (some v) = with_source v (document_of v documents)

unfoldable pub get_idempotent_version :
    Principal → (collection_id : Uuid) → (idempotency_key : String) → Store → Option Existing
get_idempotent_version principal collection_id idempotency_key s =
    join_source s.documents (find (is_keyed principal collection_id idempotency_key) s.versions)

unfoldable pub matches_request : Existing → Registration → Bool
matches_request existing values =
    str_eq existing.1 values.source_key
    && str_eq existing.0.content_sha256 values.content_sha256
    && (existing.0.size_bytes == values.size_bytes)
    && str_eq existing.0.pipeline_profile values.pipeline_profile

unfoldable pub validate_idempotent_match : Existing → Registration → Session (Unit {0})
validate_idempotent_match existing values =
    raise_when (not (matches_request existing values))
      (ServiceError.conflict ConflictReason.key_reused)

-- `source_key` in a collection is unique (`uq_source_documents_key`).
unfoldable pub has_source : Principal → Uuid → String → SourceDocument → Bool
has_source principal collection_id source_key d =
    in_collection principal.tenant_id collection_id d && str_eq d.source_key source_key

unfoldable pub new_document : Principal → Uuid → Registration → Uuid → SourceDocument
new_document principal collection_id values document_id = record {
  id = document_id;
  tenant_id = principal.tenant_id;
  collection_id = collection_id;
  source_key = values.source_key;
  display_name = values.display_name;
}

unfoldable pub insert_document : SourceDocument → Session (Unit {0})
insert_document new = do
  taken ← gets (λ s.
      any
        (λ d.
          (d.id == new.id)
          || (in_collection new.tenant_id new.collection_id d
              && str_eq d.source_key new.source_key))
        s.documents)
  raise_when taken (ServiceError.integrity Constraint.source_key)
  modify (λ s. record s { documents = new ∷ s.documents })

unfoldable pub create_document :
    Principal → (collection_id : Uuid) → Registration → (document_id : Uuid) → Session Uuid
unfolding new_document
create_document principal collection_id values document_id = do
  insert_document (new_document principal collection_id values document_id)
  pure document_id

abbrev pub use_or_create : Option SourceDocument → Session Uuid → Session Uuid
use_or_create none create = create
use_or_create (some d) create = pure d.id

unfoldable pub get_or_create_document :
    Principal → (collection_id : Uuid) → Registration → (document_id : Uuid) → Session Uuid
get_or_create_document principal collection_id values document_id = do
  existing ← gets (λ s. find (has_source principal collection_id values.source_key) s.documents)
  use_or_create existing (create_document principal collection_id values document_id)

-- The versions that the `LEFT JOIN` counts for a document.
unfoldable pub is_stored_of : SourceDocument → DocumentVersion → Bool
is_stored_of d v =
    of_document d.tenant_id d.collection_id d.id v && not (v.state is VersionState.deleted)

-- `COALESCE(sum(version.size_bytes), 0)`
unfoldable pub storage_bytes : (tenant_id collection_id : Uuid) → Store → ℕ
storage_bytes tenant_id collection_id s =
    sum_if (in_collection tenant_id collection_id)
      (λ d. sum_if (is_stored_of d) (λ v. v.size_bytes) s.versions) s.documents

-- `count(DISTINCT document.id)`: the ids of the table are distinct.
unfoldable pub document_count : (tenant_id collection_id : Uuid) → Store → ℕ
document_count tenant_id collection_id s =
    count_if (in_collection tenant_id collection_id) s.documents

unfoldable pub check_quotas : Principal → Uuid → Collection → Registration → Session (Unit {0})
check_quotas principal collection_id collection values = do
  raise_when (ltb collection.upload_max_bytes values.size_bytes)
      (ServiceError.quota QuotaReason.upload_too_large)
  documents ← gets (document_count principal.tenant_id collection_id)
  storage ← gets (storage_bytes principal.tenant_id collection_id)
  document_exists ←
      gets (λ s. any (has_source principal collection_id values.source_key) s.documents)
  raise_when (not document_exists && leb collection.document_quota documents)
      (ServiceError.quota QuotaReason.document_quota)
  raise_when (ltb collection.storage_quota_bytes (storage + values.size_bytes))
      (ServiceError.quota QuotaReason.storage_quota)

unfoldable pub registered_version :
    Principal
    → (collection_id document_id version_id : Uuid) → (idempotency_key : String) → Registration
    → (version_number : ℕ) → DocumentVersion
registered_version principal collection_id document_id version_id idempotency_key values
      version_number =
    record {
      id = version_id;
      tenant_id = principal.tenant_id;
      collection_id = collection_id;
      document_id = document_id;
      version_number = version_number;
      idempotency_key = VersionKey.client idempotency_key;
      content_sha256 = values.content_sha256;
      size_bytes = values.size_bytes;
      page_count = none;
      detected_mime = none;
      object_key = values.object_key;
      source_uri_policy = "direct_upload_only";
      pipeline_profile = values.pipeline_profile;
      state = VersionState.received;
      state_revision = 0;
      progress_completed = pos 0;
      progress_total = pos 0;
      terminal_reason_code = none;
      reprocessed_from_version_id = none;
    }

-- The last two statements of `register_document`.
unfoldable pub store_version :
    Principal
    → (collection_id version_id : Uuid) → (idempotency_key : String) → Registration
    → (document_id : Uuid) → Session DocumentVersion
store_version principal collection_id version_id idempotency_key values document_id = do
  highest ← gets (λ s.
      max_version_number (of_document principal.tenant_id collection_id document_id) s.versions)
  let new =
      registered_version principal collection_id document_id version_id idempotency_key values
        (suc highest)
  insert_version new
  pure new

-- The branch of a new key.
unfoldable pub register_new :
    Principal
    → (collection_id version_id document_id : Uuid) → (idempotency_key : String) → Registration
    → Collection
    → Session DocumentVersion
register_new principal collection_id version_id document_id idempotency_key values collection = do
  check_quotas principal collection_id collection values
  document ← get_or_create_document principal collection_id values document_id
  store_version principal collection_id version_id idempotency_key values document

unfoldable pub repeat_registration : Existing → Registration → Session DocumentVersion
repeat_registration existing values = do validate_idempotent_match existing values; pure existing.0

abbrev pub repeat_or_register :
    Registration → Option Existing → Session DocumentVersion → Session DocumentVersion
repeat_or_register values none register = register
repeat_or_register values (some existing) register = repeat_registration existing values

unfoldable pub register_document :
    Principal
    → (collection_id version_id document_id : Uuid) → (idempotency_key : String) → Registration
    → Session DocumentVersion
register_document principal collection_id version_id document_id idempotency_key values = do
  collection ← get_collection principal collection_id true
  existing ← gets (get_idempotent_version principal collection_id idempotency_key)
  repeat_or_register values existing (
      register_new principal collection_id version_id document_id idempotency_key values collection)
