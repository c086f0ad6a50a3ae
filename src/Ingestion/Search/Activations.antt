-- ===== src/Ingestion/Search/Activations.antt =====
-- app/services/ingestion/search_recovery.py and search_recovery_sql.py: the versions whose records
-- may be made visible in the search index, and the record of it.
pub mod Waiting
use text.Mathlib.Text.{◌==◌ as str_eq}
use atlas_rag.Common.{
  ℕ, Option, List, Bool, ◌∷◌, filter, update_where, ◌==◌, ◌&&◌, count_if, ltb, take, if◌then◌else◌,
  [], same_option, not, min, ◌||◌, map, some, any, leb, group_by,
}
use atlas_rag.Database.{
  Uuid, IndexPublication, Store, SearchTarget, DocumentVersion, SearchCleanup, ChunkEmbedding,
  Artifact, PublicationKind, PublicationAttempt, StoredChunk, ArtifactType,
}
use atlas_rag.Ingestion.Search.{same_id, same_target, same_attempt, is_in_scope, is_deleted_cleanup}
use atlas_rag.Catalog.Operations.{same_type}
use atlas_rag.Ingestion.Publication.Index.{same_group, count_chunks, is_live_of, or_now}
use atlas_rag.Ingestion.NativeJobs.{is_null}
use atlas_rag.Ingestion.Publication.Activation.{is_ready_state}
use atlas_rag.Ingestion.Publication.{is_some}
use atlas_rag.Ingestion.Publication.Evidence.{same_kind, is_at_target}

pub record PendingSearchActivation : Type 0 where
  pub tenant_id : Uuid
  pub collection_id : Uuid
  pub document_version_id : Uuid
  pub target : SearchTarget
  pub record_count : ℕ
  pub publication : Option PublicationAttempt

-- The rows of a table that belong to the version of a publication.
abbrev pub is_beside_publication :
    IndexPublication → (tenant_id collection_id document_version_id : Uuid) → Bool
is_beside_publication p t c v =
    (t == p.tenant_id) && (c == p.collection_id) && (v == p.document_version_id)

-- `JOIN document_versions`, with the state and the scope that are asked for.
unfoldable pub is_searchable_version :
    (activation_version_id document_version_id : Option Uuid)
    → IndexPublication
    → DocumentVersion
    → Bool
is_searchable_version activation version p v =
    is_beside_publication p v.tenant_id v.collection_id v.id
    && is_ready_state v.state
    && is_in_scope activation (some v.id)
    && is_in_scope version (some v.id)

-- Records of a former version that are not deleted yet.
unfoldable pub blocks_activation :
    (tenant_id collection_id document_version_id : Uuid) → SearchCleanup → Bool
unfolding same_id
blocks_activation t c v e =
    (e.tenant_id == t)
    && (e.collection_id == c)
    && same_option same_id e.activation_version_id (some v)
    && not (is_deleted_cleanup e.state)

-- A chunk of the version with no embedding.
unfoldable pub lacks_embedding : IndexPublication → List ChunkEmbedding → StoredChunk → Bool
lacks_embedding p embeddings c =
    is_beside_publication p c.tenant_id c.collection_id c.document_version_id
    && not (
        any
          (λ e.
            (e.tenant_id == c.tenant_id)
            && (e.collection_id == c.collection_id)
            && (e.document_version_id == c.document_version_id)
            && (e.chunk_id == c.id))
          embeddings)

unfoldable pub is_manifest_of : IndexPublication → Artifact → Bool
unfolding same_type
is_manifest_of p a =
    is_beside_publication p a.tenant_id a.collection_id a.document_version_id
    && same_type a.artifact_type ArtifactType.index_manifest
    && str_eq a.generator_name "opensearch"
    && is_at_target p.target a.search_target

-- The `WHERE` of the query.
unfoldable pub is_pending_row :
    (activation_version_id document_version_id : Option Uuid) → Store → IndexPublication → Bool
unfolding is_searchable_version blocks_activation lacks_embedding is_manifest_of
is_pending_row activation version s p =
    is_null p.deleted_at
    && is_null p.activated_at
    && is_some p.publication
    && any (is_searchable_version activation version p) s.versions
    && not (any (blocks_activation p.tenant_id p.collection_id p.document_version_id) s.cleanups)
    && not (any (lacks_embedding p s.embeddings) s.chunks)
    && any (is_manifest_of p) s.artifacts

-- `GROUP BY`
unfoldable pub same_activation : IndexPublication → IndexPublication → Bool
unfolding same_group
same_activation a b =
    is_beside_publication a b.tenant_id b.collection_id b.document_version_id && same_group a b

unfoldable pub activates_kind : IndexPublication → PublicationKind → IndexPublication → Bool
unfolding same_activation
activates_kind g kind p = same_activation g p && same_kind p.publication_kind kind

-- `HAVING`
unfoldable pub is_published_whole : Store → List IndexPublication → IndexPublication → Bool
unfolding activates_kind
is_published_whole s rows g =
    let chunk_count =
      count_if (λ c. is_beside_publication g c.tenant_id c.collection_id c.document_version_id)
        s.chunks in
    (count_chunks (activates_kind g PublicationKind.lexical) rows == chunk_count)
    && (count_chunks (activates_kind g PublicationKind.vector) rows == chunk_count)

-- `min(published_at)` of a group.
unfoldable pub first_published : List IndexPublication → IndexPublication → ℕ
unfolding same_activation
first_published [] g = g.published_at
first_published (p ∷ rows) g =
    let rest = first_published rows g in
    if same_activation g p then min p.published_at rest else rest

-- `ORDER BY min(published_at), document_version_id`
unfoldable pub is_before : List IndexPublication → IndexPublication → IndexPublication → Bool
unfolding first_published
is_before rows a b =
    ltb (first_published rows a) (first_published rows b)
    || ((first_published rows a == first_published rows b)
        && leb a.document_version_id b.document_version_id)

unfoldable pub insert_ordered :
    List IndexPublication → IndexPublication → List IndexPublication → List IndexPublication
unfolding is_before
insert_ordered rows g [] = g ∷ []
insert_ordered rows g (x ∷ xs) =
    let later = x ∷ insert_ordered rows g xs in if is_before rows g x then g ∷ x ∷ xs else later

unfoldable pub ordered : List IndexPublication → List IndexPublication → List IndexPublication
ordered rows [] = []
ordered rows (g ∷ groups) = insert_ordered rows g (ordered rows groups)

unfoldable pub pending_activation :
    List IndexPublication → IndexPublication → PendingSearchActivation
unfolding same_activation
pending_activation rows g = record {
  tenant_id = g.tenant_id;
  collection_id = g.collection_id;
  document_version_id = g.document_version_id;
  target = g.target;
  record_count = count_chunks (same_activation g) rows;
  publication = g.publication;
}

unfoldable pub pending_activations :
    (limit : ℕ)
    → (activation_version_id document_version_id : Option Uuid) → Store
    → List PendingSearchActivation
unfolding is_pending_row same_activation is_published_whole ordered pending_activation
pending_activations limit activation version s =
    let rows = filter (is_pending_row activation version s) s.publications in
    take limit (
      map (pending_activation rows)
        (ordered rows (filter (is_published_whole s rows) (group_by same_activation rows))))

-- `complete_activation`
unfoldable pub is_activated_by : PendingSearchActivation → IndexPublication → Bool
unfolding same_target same_attempt
is_activated_by a p =
    is_live_of a.tenant_id a.collection_id a.document_version_id p
    && same_target p.target a.target
    && is_some a.publication
    && same_option same_attempt p.publication a.publication

unfoldable pub complete_activation : PendingSearchActivation → (now : ℕ) → Store → Store
unfolding is_activated_by
complete_activation a now s = record s {
  publications =
      update_where (is_activated_by a) (λ p. record p { activated_at = or_now now p.activated_at })
        s.publications;
}
