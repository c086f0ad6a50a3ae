-- ===== src/Catalog/Registration/Registered.antt =====
-- app/services/catalog/repository.py: what a registration under a new key has stored when it did not
-- raise.
use text.Mathlib.TextEquality.{eq_iff}
use text.Mathlib.Text.{◌==◌ as str_eq}
use atlas_rag.Common.{
  ◌==◌, [], ◌∷◌, none, some, true, false, arith, ◌≡◌, refl, List, any, ℕ, ◌≤◌, ◌+◌, Bool-cases, inl,
  inr, Bool, ◌||◌, find, Option-cases, ◌⊎◌, ◌<◌, String, ◌&&◌, ==_self, suc, ◌∙◌, ap, sym,
}
use atlas_rag.Database.{Store, Uuid, SourceDocument, DocumentVersion, Principal, Collection}
use atlas_rag.Catalog.Registration.{
  in_collection, check_quotas, get_or_create_document, Registration, create_document, storage_bytes,
  has_source, document_count, insert_document, new_document, store_version, register_new,
  registered_version, str_eq,
}
use atlas_rag.Catalog.Reprocessing.{of_document, insert_version, clashes, max_version_number}
use atlas_rag.Common.Result.{ok}
use atlas_rag.Database.Session.{bind-eq-ok, pure, ◌>>=◌}

-- What the checks of the quotas let pass.
pub record IsAllowed (p : Principal) (c : Uuid) (collection : Collection) (values : Registration)
    (s : Store) : Type 0 where
  pub small : values.size_bytes ≤ collection.upload_max_bytes
  pub room : storage_bytes p.tenant_id c s + values.size_bytes ≤ collection.storage_quota_bytes
  pub known_or_room :
      (any (has_source p c values.source_key) s.documents ≡ true)
      ⊎ (document_count p.tenant_id c s < collection.document_quota)

check_quotas-ok :
    (p : Principal) (c : Uuid) (collection : Collection) (values : Registration) (s s' : Store)
    (u : Unit {0})
    → check_quotas p c collection values s ≡ ok (u, s')
    → (s' ≡ s) × IsAllowed p c collection values s
unfolding check_quotas
check_quotas-ok p c collection values s s' u h =
    elim (Bool-cases (any (has_source p c values.source_key) s.documents)) [
      | inl known ↦ (
        ground arith,
        record { small = ground arith; room = ground arith; known_or_room = inl known },
      )
      | inr fresh ↦ (
        ground arith,
        record { small = ground arith; room = ground arith; known_or_room = inr (ground arith) },
      )
    ]

-- The document that a registration is about: known, or new.
pub data Document (p : Principal) (c : Uuid) (values : Registration) (k : Uuid) (s s' : Store)
    : Type 0 where
  known :
      (d : SourceDocument)
      → find (has_source p c values.source_key) s.documents ≡ some d
      → k ≡ d.id
      → s' ≡ s
      → Document p c values k s s'
  created :
      (d : SourceDocument)
      → find (has_source p c values.source_key) s.documents ≡ none
      → k ≡ d.id
      → has_source p c values.source_key d ≡ true
      → any (λ e. e.id == k) s.documents ≡ false
      → s' ≡ record s { documents = d ∷ s.documents }
      → Document p c values k s s'

any-none :
    (k : Uuid) (q : SourceDocument → Bool) (documents : List SourceDocument)
    → any (λ d. (d.id == k) || q d) documents ≡ false
    → any (λ d. d.id == k) documents ≡ false
unfolding any
any-none k q [] h = refl
any-none k q (d ∷ documents) h = ground (arith, any-none k q documents)

insert_document-ok :
    (new : SourceDocument) (s s' : Store) (u : Unit {0})
    → insert_document new s ≡ ok (u, s')
    → (any (λ d. d.id == new.id) s.documents ≡ false)
      × (s' ≡ record s { documents = new ∷ s.documents })
unfolding insert_document
insert_document-ok new s s' u h =
    let clash : SourceDocument → Bool =
      λ d. in_collection new.tenant_id new.collection_id d && str_eq d.source_key new.source_key in
    elim (Bool-cases (any (λ d. (d.id == new.id) || clash d) s.documents)) [
      | inl taken ↦ absurd (ground arith)
      | inr free ↦ (any-none new.id clash s.documents free, ground arith)
    ]

new_document-has_source :
    (p : Principal) (c : Uuid) (values : Registration) (k : Uuid)
    → has_source p c values.source_key (new_document p c values k) ≡ true
unfolding has_source in_collection new_document
new_document-has_source p c values k =
    rw (==_self p.tenant_id, ==_self c, (eq_iff values.source_key values.source_key).1 refl) refl

new_document-id :
    (p : Principal) (c : Uuid) (values : Registration) (k : Uuid)
    → (new_document p c values k).id ≡ k
unfolding new_document
new_document-id p c values k = refl

create_document-Document :
    (p : Principal) (c : Uuid) (values : Registration) (fresh k : Uuid) (s s' : Store)
    → find (has_source p c values.source_key) s.documents ≡ none
    → create_document p c values fresh s ≡ ok (k, s')
    → Document p c values k s s'
unfolding create_document
create_document-Document p c values fresh k s s' unknown h =
    let d : SourceDocument = new_document p c values fresh in
    let (u, s1, inserted, last) = bind-eq-ok (insert_document d) (λ _. pure fresh) s h in
    let (free, same) = insert_document-ok d s s1 u inserted in
    let id : k ≡ fresh = cc in
    let id' : k ≡ d.id = id ∙ sym (new_document-id p c values fresh) in
    let store : s' ≡ s1 = cc in
    created d unknown id' (new_document-has_source p c values fresh) (rw id' free) (store ∙ same)

get_or_create_document-Document :
    (p : Principal) (c : Uuid) (values : Registration) (fresh k : Uuid) (s s' : Store)
    → get_or_create_document p c values fresh s ≡ ok (k, s')
    → Document p c values k s s'
unfolding get_or_create_document
get_or_create_document-Document p c values fresh k s s' h =
    elim (Option-cases (find (has_source p c values.source_key) s.documents)) [
      | inl unknown ↦ create_document-Document p c values fresh k s s' unknown (rw unknown at h)
      | inr (d, found) ↦ known d found (ground arith) (ground arith)
    ]

-- What a registration under a new key leaves behind.
pub record IsRegistered (p : Principal) (c k : Uuid) (key : String) (collection : Collection)
    (values : Registration) (v : DocumentVersion) (s s' : Store) : Type 0 where
  pub allowed : IsAllowed p c collection values s
  pub document_id : Uuid
  pub number : ℕ
  pub version : v ≡ registered_version p c document_id k key values number
  pub documents : List SourceDocument
  pub document : Document p c values document_id s (record s { documents = documents })
  pub free : any (clashes v) s.versions ≡ false
  pub stored : s' ≡ record s { documents = documents; versions = v ∷ s.versions }

pub insert_version-ok :
    (new : DocumentVersion) (s s' : Store) (u : Unit {0})
    → insert_version new s ≡ ok (u, s')
    → (any (clashes new) s.versions ≡ false) × (s' ≡ record s { versions = new ∷ s.versions })
unfolding insert_version
insert_version-ok new s s' u h = ground arith

store_version-ok :
    (p : Principal) (c k : Uuid) (key : String) (values : Registration) (d : Uuid) (s s' : Store)
    (v : DocumentVersion)
    → store_version p c k key values d s ≡ ok (v, s')
    → (n : ℕ) × (v ≡ registered_version p c d k key values n)
      × (any (clashes v) s.versions ≡ false)
      × (s' ≡ record s { versions = v ∷ s.versions })
unfolding store_version
store_version-ok p c k key values d s s' v h =
    let n : ℕ = suc (max_version_number (of_document p.tenant_id c d) s.versions) in
    let new : DocumentVersion = registered_version p c d k key values n in
    let (u, s1, inserted, last) = bind-eq-ok (insert_version new) (λ _. pure new) s h in
    let (free, same) = insert_version-ok new s s1 u inserted in
    let is_new : v ≡ new = cc in
    let store : s' ≡ s1 = cc in (n, is_new, rw is_new free, rw is_new (store ∙ same))

documents_only :
    (p : Principal) (c : Uuid) (values : Registration) (k : Uuid) (s s' : Store)
    → Document p c values k s s'
    → s' ≡ record s { documents = s'.documents }
documents_only p c values k s s' (known d found id same) = rw same refl
documents_only p c values k s s' (created d unknown id has free same) = rw same refl

pub register_new-IsRegistered :
    (p : Principal) (c k fresh : Uuid) (key : String) (values : Registration)
    (collection : Collection) (s s' : Store) (v : DocumentVersion)
    → register_new p c k fresh key values collection s ≡ ok (v, s')
    → IsRegistered p c k key collection values v s s'
unfolding register_new
register_new-IsRegistered p c k fresh key values collection s s' v h =
    let (u, s1, checked, rest) =
      bind-eq-ok (check_quotas p c collection values)
        (λ _. get_or_create_document p c values fresh >>= store_version p c k key values) s h in
    let (same, allowed) = check_quotas-ok p c collection values s s1 u checked in
    let (d, s2, document, last) =
      bind-eq-ok (get_or_create_document p c values fresh) (store_version p c k key values) s
        (rw same at rest) in
    let about = get_or_create_document-Document p c values fresh d s s2 document in
    let only = documents_only p c values d s s2 about in
    let (n, version, free, stored) = store_version-ok p c k key values d s2 s' v last in
    record {
      allowed = allowed;
      document_id = d;
      number = n;
      version = version;
      documents = s2.documents;
      document = rw (← only) about;
      free = rw (ap (λ (x : Store). x.versions) only) at free;
      stored = stored ∙ ap (λ (x : Store). record x { versions = v ∷ x.versions }) only;
    }
