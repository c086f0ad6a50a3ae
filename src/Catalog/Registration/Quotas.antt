-- ===== src/Catalog/Registration/Quotas.antt =====
-- app/services/catalog/repository.py: what a registration adds to its collection.
use atlas_rag.Common.{
  ◌==◌, [], ◌∷◌, none, true, false, arith, ◌≡◌, refl, List, any, ℕ, sum_if, ◌≤◌, ◌+◌, Bool-cases,
  inl, ==_iff, inr, find, ◌⊎◌, ◌<◌, String, ap, count_if,
}
use atlas_rag.Database.{Store, Uuid, SourceDocument, DocumentVersion, Principal, Collection}
use atlas_rag.Catalog.Registration.{
  in_collection, is_stored_of, Registration, storage_bytes, has_source, document_count,
  register_new, registered_version,
}
use atlas_rag.Catalog.Reprocessing.{of_document}
use atlas_rag.Common.Result.{ok}
use atlas_rag.Catalog.Registration.Registered.{Document, register_new-IsRegistered, known, created}

-- No two documents have the same id.
abbrev pub AreDistinct : List SourceDocument → Type 0
AreDistinct [] = Unit
AreDistinct (d ∷ documents) = (any (λ e. e.id == d.id) documents ≡ false) × AreDistinct documents

-- The primary key of the documents, and the foreign key of the versions.
pub record IsKeyed (s : Store) : Type 0 where
  pub distinct : AreDistinct s.documents
  pub foreign :
      (k : Uuid)
      → any (λ d. d.id == k) s.documents ≡ false
      → any (λ v. v.document_id == k) s.versions ≡ false

abbrev sizes : (tenant_id collection_id : Uuid) → List DocumentVersion → List SourceDocument → ℕ
sizes tenant_id collection_id versions documents =
    sum_if (in_collection tenant_id collection_id)
      (λ d. sum_if (is_stored_of d) (λ v. v.size_bytes) versions) documents

module _ (t c : Uuid) (new : DocumentVersion) (versions : List DocumentVersion) where
  sizes_elsewhere :
      (documents : List SourceDocument)
      → any (λ d. d.id == new.document_id) documents ≡ false
      → sizes t c (new ∷ versions) documents ≡ sizes t c versions documents
  unfolding sum_if any is_stored_of of_document
  sizes_elsewhere [] h = refl
  sizes_elsewhere (d ∷ documents) h = ground (arith, sizes_elsewhere documents)

  sizes_there :
      (documents : List SourceDocument)
      → AreDistinct documents
      → sizes t c (new ∷ versions) documents ≤ sizes t c versions documents + new.size_bytes
  unfolding sum_if is_stored_of of_document
  sizes_there [] h = omega arith
  sizes_there (d ∷ documents) h = elim (Bool-cases (new.document_id == d.id)) [
    | inl same ↦
        let other : any (λ e. e.id == new.document_id) documents ≡ false =
          rw ((==_iff _ _).0 same) h.0 in
        ground (arith, sizes_elsewhere documents other)
    | inr other ↦ ground (arith, sizes_there documents h.1)
  ]

sizes_none :
    (d : SourceDocument) (versions : List DocumentVersion)
    → any (λ v. v.document_id == d.id) versions ≡ false
    → sum_if (is_stored_of d) (λ v. v.size_bytes) versions ≡ 0
unfolding sum_if any is_stored_of of_document
sizes_none d [] h = refl
sizes_none d (v ∷ versions) h = ground (arith, sizes_none d versions)

-- A collection within its quotas.
pub record IsWithin (t : Uuid) (collection : Collection) (s : Store) : Type 0 where
  pub documents : document_count t collection.id s ≤ collection.document_quota
  pub storage : storage_bytes t collection.id s ≤ collection.storage_quota_bytes

none_with :
    (p : Principal) (c : Uuid) (key : String) (documents : List SourceDocument)
    → find (has_source p c key) documents ≡ none
    → any (has_source p c key) documents ≡ false
unfolding find any
none_with p c key [] h = refl
none_with p c key (d ∷ documents) h = ground (arith, none_with p c key documents)

pub has_source-in_collection :
    (p : Principal) (c : Uuid) (key : String) (d : SourceDocument)
    → has_source p c key d ≡ true
    → in_collection p.tenant_id c d ≡ true
unfolding has_source
has_source-in_collection p c key d h = ground arith

-- The version that was added, in the sizes of the collection's documents.
storage_after :
    (p : Principal) (c : Uuid) (values : Registration) (v : DocumentVersion)
    (documents : List SourceDocument) (s : Store)
    → IsKeyed s
    → Document p c values v.document_id s (record s { documents = documents })
    → sizes p.tenant_id c (v ∷ s.versions) documents
      ≤ sizes p.tenant_id c s.versions s.documents + v.size_bytes
unfolding sum_if
storage_after p c values v documents s keyed (known d found id same) =
    let e : documents ≡ s.documents = ap (λ (x : Store). x.documents) same in
    rw e (sizes_there p.tenant_id c v s.versions s.documents keyed.distinct)
storage_after p c values v documents s keyed (created d unknown id has free same) =
    let e : documents ≡ d ∷ s.documents = ap (λ (x : Store). x.documents) same in
    let old = sizes_elsewhere p.tenant_id c v s.versions s.documents free in
    let empty : sum_if (is_stored_of d) (λ x. x.size_bytes) s.versions ≡ 0 =
      sizes_none d s.versions (rw id at (keyed.foreign v.document_id free)) in
    let inside = has_source-in_collection p c values.source_key d has in rw e (ground arith)

count_after :
    (p : Principal) (c : Uuid) (values : Registration) (k : Uuid) (quota : ℕ)
    (documents : List SourceDocument) (s : Store)
    → count_if (in_collection p.tenant_id c) s.documents ≤ quota
    → (any (has_source p c values.source_key) s.documents ≡ true)
      ⊎ (count_if (in_collection p.tenant_id c) s.documents < quota)
    → Document p c values k s (record s { documents = documents })
    → count_if (in_collection p.tenant_id c) documents ≤ quota
unfolding count_if
count_after p c values k quota documents s h room (known d found id same) =
    rw (ap (λ (x : Store). x.documents) same) h
count_after p c values k quota documents s h room (created d unknown id has free same) =
    let e : documents ≡ d ∷ s.documents = ap (λ (x : Store). x.documents) same in
    let fresh = none_with p c values.source_key s.documents unknown in rw e (ground arith)

-- A registration under a new key is made only within the quotas, and leaves the collection within
-- them: the version is no larger than the limit of an upload, the collection holds no more
-- documents and no more bytes than it may.
pub register_new-IsWithin :
    (p : Principal) (k fresh : Uuid) (key : String) (values : Registration)
    (collection : Collection) (s s' : Store) (v : DocumentVersion)
    → IsKeyed s
    → IsWithin p.tenant_id collection s
    → register_new p collection.id k fresh key values collection s ≡ ok (v, s')
    → IsWithin p.tenant_id collection s' × (v.size_bytes ≤ collection.upload_max_bytes)
unfolding document_count storage_bytes registered_version
register_new-IsWithin p k fresh key values collection s s' v keyed within h =
    let r = register_new-IsRegistered p collection.id k fresh key values collection s s' v h in
    let id : v.document_id ≡ r.document_id =
      ap (λ (x : DocumentVersion). x.document_id) r.version in
    let size : v.size_bytes ≡ values.size_bytes =
      ap (λ (x : DocumentVersion). x.size_bytes) r.version in
    let bytes = storage_after p collection.id values v r.documents s keyed (rw id r.document) in
    let counted =
      count_after p collection.id values r.document_id collection.document_quota r.documents s
        within.documents r.allowed.known_or_room r.document in
    let room = r.allowed.room in
    let small = r.allowed.small in
    (rw r.stored (record { documents = counted; storage = omega arith }), omega arith)
