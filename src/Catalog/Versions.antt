-- ===== src/Catalog/Versions.antt =====
-- app/services/catalog/repository.py and operation_transitions.py: how a version is read and how
-- its row is moved to another state, with the event that records it. `id` is the primary key of
-- `document_versions`, so a query by `id` finds one row at most. `FOR UPDATE` makes a concurrent
-- transaction wait: the blocks of one row run one after another.
use text.Mathlib.Text.{◌==◌ as str_eq}
use atlas_rag.Common.{
  ℕ, suc, Bool, true, false, not, ◌&&◌, ◌||◌, Option, none, some, List, ◌==◌, any, find,
  if◌then◌else◌, update_where,
}
use atlas_rag.Common.Int.{ltb_ℤ}
use atlas_rag.Catalog.Enums.{◌is◌}
use atlas_rag.Database.{Uuid, Principal, CollectionRole, Membership, DocumentVersion, Store}
use atlas_rag.Database.Session.{
  Session, ServiceError, pure, gets, require, raise_when, modify, ◌>>=◌, ◌>>◌,
}

-- `EDITOR_ROLES`
unfoldable pub is_editor : CollectionRole → Bool
is_editor CollectionRole.owner = true
is_editor CollectionRole.editor = true
is_editor CollectionRole.viewer = false

-- The join with `collection_memberships`, with the role clause where an editor is required.
unfoldable pub is_member : Principal → (require_editor : Bool) → Uuid → List Membership → Bool
is_member p require_editor collection_id = any λ m.
    (m.tenant_id == p.tenant_id)
    && (m.collection_id == collection_id)
    && str_eq m.principal_subject p.subject
    && (not require_editor || is_editor m.role)

unfoldable pub find_version : Uuid → List DocumentVersion → Option DocumentVersion
find_version version_id = find (λ v. v.id == version_id)

abbrev pub visible : Principal → Bool → Store → Option DocumentVersion → Option DocumentVersion
visible p require_editor s none = none
visible p require_editor s (some v) =
    if (v.tenant_id == p.tenant_id) && is_member p require_editor v.collection_id s.memberships
    then some v
    else none

unfoldable pub get_version : Principal → Uuid → (require_editor : Bool) → Session DocumentVersion
get_version p version_id require_editor = do
  row ← gets (λ s. visible p require_editor s (find_version version_id s.versions))
  require row ServiceError.not_found

-- `protect_document_version_identity`: the second condition of the trigger.
unfoldable pub is_monotonic : (old new : DocumentVersion) → Bool
is_monotonic old new = not (
    (not (new.state is old.state) && not (new.state_revision == suc old.state_revision))
    || ((new.state is old.state) && not (new.state_revision == old.state_revision))
    || ltb_ℤ new.progress_completed old.progress_completed
    || ltb_ℤ new.progress_total old.progress_total)

-- `UPDATE document_versions SET ... WHERE tenant_id AND id AND state_revision RETURNING *`, under
-- the trigger.
abbrev pub matching : Uuid → (revision : ℕ) → Option DocumentVersion → Option DocumentVersion
matching tenant_id revision none = none
matching tenant_id revision (some v) =
    if (v.tenant_id == tenant_id) && (v.state_revision == revision) then some v else none

unfoldable pub write_version : Uuid → DocumentVersion → Store → Store
write_version version_id new s = record s {
  versions = update_where (λ v. v.id == version_id) (λ _. new) s.versions;
}

unfoldable pub update_version :
    (tenant_id version_id : Uuid) (expected_revision : ℕ)
    → (DocumentVersion → DocumentVersion)
    → ServiceError
    → Session DocumentVersion
unfolding write_version
update_version tenant_id version_id expected_revision change missing = do
  row ← gets (λ s. matching tenant_id expected_revision (find_version version_id s.versions))
  old ← require row missing
  let new = change old
  raise_when (not (is_monotonic old new)) ServiceError.monotonic_trigger
  modify (write_version version_id new)
  pure new
