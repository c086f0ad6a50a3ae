-- ===== src/Catalog/Registration/Repeated.antt =====
-- app/services/catalog/repository.py and service.py: a registration that is repeated, or that lost
-- a race.
use text.Mathlib.TextEquality.{eq_iff}
use atlas_rag.Common.{
  ◌==◌, [], ◌∷◌, some, true, false, arith, ◌≡◌, refl, find, any, String, Bool, List, ◌&&◌,
  Bool-cases, inl, ==_self, inr, ap, ℕ, Option-cases,
}
use atlas_rag.Catalog.Registration.Quotas.{AreDistinct, IsKeyed, has_source-in_collection}
use atlas_rag.Catalog.Registration.Registered.{known, created, Document, register_new-IsRegistered}
use atlas_rag.Database.{Principal, Uuid, SourceDocument, DocumentVersion, Store, Collection}
use atlas_rag.Catalog.Registration.{
  Registration, get_idempotent_version, in_collection, matches_request, document_of, has_source,
  get_collection, is_keyed, registered_version, find_collection, str_eq, register_new,
  repeat_registration, register_document, validate_idempotent_match, Existing, repeat_or_register,
}
use atlas_rag.Common.Result.{ok}
use atlas_rag.Catalog.Versions.{is_member}
use atlas_rag.Database.Session.{Session, gets, ◌>>=◌, bind-eq-ok}

-- The stored answer to a key: the version, with the source key of its document.
pub record IsAnswered (p : Principal) (c : Uuid) (key : String) (values : Registration)
    (v : DocumentVersion) (s : Store) : Type 0 where
  pub source : String
  pub existing : get_idempotent_version p c key s ≡ some (v, source)
  pub matching : matches_request (v, source) values ≡ true

pub find_apart :
    (k : Uuid) (q : SourceDocument → Bool) (documents : List SourceDocument) (d : SourceDocument)
    → find q documents ≡ some d
    → any (λ e. e.id == k) documents ≡ false
    → (d.id == k) ≡ false
unfolding find any
find_apart k q [] d h apart = cc
find_apart k q (e ∷ documents) d h apart = ground (arith, find_apart k q documents d)

find_same :
    (t c : Uuid) (q : SourceDocument → Bool) (documents : List SourceDocument) (d : SourceDocument)
    → AreDistinct documents
    → find q documents ≡ some d
    → in_collection t c d ≡ true
    → find (λ e. in_collection t c e && (e.id == d.id)) documents ≡ some d
unfolding find any
find_same t c q [] d distinct h inside = cc
find_same t c q (e ∷ documents) d distinct h inside = elim (Bool-cases (q e)) [
  | inl met ↦ ground (arith, ==_self d.id)
  | inr unmet ↦
      let there : find q documents ≡ some d = rw unmet at h in
      let apart = find_apart e.id q documents d there distinct.0 in
      ground (arith, find_same t c q documents d distinct.1 there inside)
]

found_has :
    (q : SourceDocument → Bool) (documents : List SourceDocument) (d : SourceDocument)
    → find q documents ≡ some d
    → q d ≡ true
unfolding find
found_has q [] d h = cc
found_has q (e ∷ documents) d h = ground (arith, found_has q documents d)

find_first :
    {A : Type 0} (q : A → Bool) (x : A) (xs : List A) → q x ≡ true → find q (x ∷ xs) ≡ some x
unfolding find
find_first q x xs h = rw h refl

-- The document of a registration, seen from its version.
document_of-Document :
    (p : Principal) (c : Uuid) (values : Registration) (v : DocumentVersion)
    (documents : List SourceDocument) (s : Store)
    → IsKeyed s
    → v.tenant_id ≡ p.tenant_id
    → v.collection_id ≡ c
    → Document p c values v.document_id s (record s { documents = documents })
    → (d : SourceDocument) × (document_of v documents ≡ some d)
      × (has_source p c values.source_key d ≡ true)
unfolding document_of
document_of-Document p c values v documents s keyed tenant collection (known d found id same) =
    let e : documents ≡ s.documents = ap (λ (x : Store). x.documents) same in
    let has = found_has (has_source p c values.source_key) s.documents d found in
    let inside = has_source-in_collection p c values.source_key d has in
    (
      d,
      rw (e, tenant, collection, id)
          (find_same p.tenant_id c (has_source p c values.source_key) s.documents d keyed.distinct
            found inside),
      has,
    )
document_of-Document p c values v documents s keyed tenant collection
      (created d unknown id has free same) =
    let e : documents ≡ d ∷ s.documents = ap (λ (x : Store). x.documents) same in
    let inside = has_source-in_collection p c values.source_key d has in
    (
      d,
      rw (e, tenant, collection, id)
          (find_first (λ x. in_collection p.tenant_id c x && (x.id == d.id)) d s.documents
            (ground (arith, ==_self d.id))),
      has,
    )

pub get_collection-ok :
    (p : Principal) (c : Uuid) (s s' : Store) (collection : Collection)
    → get_collection p c true s ≡ ok (collection, s')
    → (s' ≡ s)
      × ((t : Store)
          → t.collections ≡ s.collections
          → t.memberships ≡ s.memberships
          → get_collection p c true t ≡ ok (collection, t))
unfolding get_collection find_collection
get_collection-ok p c s s' collection h =
    let q : Collection → Bool = λ x. (x.tenant_id == p.tenant_id) && (x.id == c) in
    elim (Option-cases (find q s.collections)) [
      | inl missing ↦ absurd (ground arith)
      | inr (row, found) ↦ elim (Bool-cases (is_member p true row.id s.memberships)) [
        | inl member ↦ (
          ground arith,
          λ t same_collections same_members.
              let row' : find q t.collections ≡ some row = rw same_collections found in
              let member' : is_member p true row.id t.memberships ≡ true = rw same_members member in
              ground arith,
        )
        | inr stranger ↦ absurd (ground arith)
      ]
    ]

registered_version-is_keyed :
    (p : Principal) (c d k : Uuid) (key : String) (values : Registration) (n : ℕ)
    → is_keyed p c key (registered_version p c d k key values n) ≡ true
unfolding is_keyed registered_version
registered_version-is_keyed p c d k key values n =
    rw (==_self p.tenant_id, ==_self c, (eq_iff key key).1 refl) refl

registered_version-matches :
    (p : Principal) (c d k : Uuid) (key source : String) (values : Registration) (n : ℕ)
    → str_eq source values.source_key ≡ true
    → matches_request (registered_version p c d k key values n, source) values ≡ true
unfolding matches_request registered_version
registered_version-matches p c d k key source values n same =
    rw
      (
        same,
        (eq_iff values.content_sha256 values.content_sha256).1 refl,
        ==_self values.size_bytes,
        (eq_iff values.pipeline_profile values.pipeline_profile).1 refl,
      )
      refl

register_new-IsAnswered :
    (p : Principal) (c k fresh : Uuid) (key : String) (values : Registration)
    (collection : Collection) (s s' : Store) (v : DocumentVersion)
    → IsKeyed s
    → register_new p c k fresh key values collection s ≡ ok (v, s')
    → IsAnswered p c key values v s'
      × (s'.collections ≡ s.collections)
      × (s'.memberships ≡ s.memberships)
unfolding get_idempotent_version has_source registered_version
register_new-IsAnswered p c k fresh key values collection s s' v keyed h =
    let r = register_new-IsRegistered p c k fresh key values collection s s' v h in
    let id : v.document_id ≡ r.document_id =
      ap (λ (x : DocumentVersion). x.document_id) r.version in
    let tenant : v.tenant_id ≡ p.tenant_id = ap (λ (x : DocumentVersion). x.tenant_id) r.version in
    let scope : v.collection_id ≡ c = ap (λ (x : DocumentVersion). x.collection_id) r.version in
    let (d, found, has) =
      document_of-Document p c values v r.documents s keyed tenant scope (rw id r.document) in
    let first : find (is_keyed p c key) (v ∷ s.versions) ≡ some v =
      find_first (is_keyed p c key) v s.versions
        (rw r.version (registered_version-is_keyed p c r.document_id k key values r.number)) in
    let source : str_eq d.source_key values.source_key ≡ true = ground arith in
    (
      record {
        source = d.source_key;
        existing = rw (r.stored, first, found) refl;
        matching = rw r.version (
            registered_version-matches p c r.document_id k key d.source_key values r.number source);
      },
      ap (λ (x : Store). x.collections) r.stored,
      ap (λ (x : Store). x.memberships) r.stored,
    )

pub repeat_registration-ok :
    (existing : Existing) (values : Registration) (s s' : Store) (v : DocumentVersion)
    → repeat_registration existing values s ≡ ok (v, s')
    → (v ≡ existing.0) × (s' ≡ s) × (matches_request existing values ≡ true)
unfolding repeat_registration validate_idempotent_match
repeat_registration-ok existing values s s' v h =
    elim (Bool-cases (matches_request existing values)) [
      | inl same ↦ ground arith
      | inr other ↦ absurd (ground arith)
    ]

-- What every registration leaves behind: the answer to its key, for those who may edit.
pub record IsKept (p : Principal) (c : Uuid) (key : String) (values : Registration)
    (v : DocumentVersion) (s : Store) : Type 0 where
  pub collection : Collection
  pub editable : get_collection p c true s ≡ ok (collection, s)
  pub answered : IsAnswered p c key values v s

pub register_document-IsKept :
    (p : Principal) (c k fresh : Uuid) (key : String) (values : Registration) (s s' : Store)
    (v : DocumentVersion)
    → IsKeyed s
    → register_document p c k fresh key values s ≡ ok (v, s')
    → IsKept p c key values v s'
unfolding register_document
register_document-IsKept p c k fresh key values s s' v keyed h =
    let next : Collection → Session DocumentVersion = λ collection.
      gets (get_idempotent_version p c key) >>= λ existing.
      repeat_or_register values existing (register_new p c k fresh key values collection) in
    let (collection, s1, read, rest) = bind-eq-ok (get_collection p c true) next s h in
    let (same, again) = get_collection-ok p c s s1 collection read in
    let run = rw same at rest in
    elim (Option-cases (get_idempotent_version p c key s)) [
      | inl unknown ↦
          let (answered, collections, members) =
            register_new-IsAnswered p c k fresh key values collection s s' v keyed
              (rw unknown at run) in
          record {
            collection = collection;
            editable = again s' collections members;
            answered = answered;
          }
      | inr (existing, found) ↦
          let (is_it, unchanged, matching) =
            repeat_registration-ok existing values s s' v (rw found at run) in
          record {
            collection = collection;
            editable =
                again s' (ap (λ (x : Store). x.collections) unchanged)
                  (ap (λ (x : Store). x.memberships) unchanged);
            answered = record {
              source = existing.1;
              existing = rw (unchanged, is_it) found;
              matching = rw is_it matching;
            };
          }
    ]
