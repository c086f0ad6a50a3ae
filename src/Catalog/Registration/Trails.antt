-- ===== src/Catalog/Registration/Trails.antt =====
-- app/services/catalog/repository.py: a registration among the trails and the keys of the tables.
use native.Mathlib.Decide.{ℕ_discrete}
use atlas_rag.Common.{
  [], ◌∷◌, none, some, false, arith, ◌≡◌, refl, ◌≢◌, any, find, List, String, ==_self, ap, sym, ◌∙◌,
}
use atlas_rag.Catalog.Versions.{find_version}
use atlas_rag.Database.{DocumentVersion, Principal, Store, Uuid, Collection, SourceDocument}
use atlas_rag.Catalog.Registration.{registered_version, Registration, register_new, has_source}
use atlas_rag.Catalog.Reprocessing.{clashes}
use atlas_rag.Catalog.Transitions.Audit.{IsAudited, trail_of, some-eq, registered}
use atlas_rag.Catalog.Enums.{VersionState}
use atlas_rag.Catalog.Registration.Quotas.{IsKeyed}
use atlas_rag.Catalog.Registration.Registered.{Document, register_new-IsRegistered, known, created}
use atlas_rag.Common.Result.{ok}
use atlas_rag.Catalog.Registration.Repeated.{find_apart}

pub not_clashing :
    (new : DocumentVersion) (versions : List DocumentVersion)
    → any (clashes new) versions ≡ false
    → find_version new.id versions ≡ none
unfolding any find_version find clashes
not_clashing new [] h = refl
not_clashing new (v ∷ versions) h = ground (arith, not_clashing new versions)

pub find-cons_self :
    (new : DocumentVersion) (versions : List DocumentVersion)
    → find_version new.id (new ∷ versions) ≡ some new
unfolding find_version find
find-cons_self new versions = rw (==_self new.id) refl

pub find-cons_ne :
    (k : Uuid) (new : DocumentVersion) (versions : List DocumentVersion)
    → k ≢ new.id
    → find_version k (new ∷ versions) ≡ find_version k versions
unfolding find_version find
find-cons_ne k new versions h = ground arith

-- A version that is new, at the state and the revision of its trail.
module _ (new : DocumentVersion) (s : Store) (audited : IsAudited s)
    (free : any (clashes new) s.versions ≡ false) where
  pub trail_of_new : trail_of new.id s.events ≡ []
  trail_of_new = audited.no_orphan new.id (not_clashing new s.versions free)

  pub insert_received-IsAudited :
      new.state ≡ VersionState.received
      → new.state_revision ≡ 0
      → IsAudited (record s { versions = new ∷ s.versions })
  insert_received-IsAudited state revision = record {
    trail = λ k v h. elim (ℕ_discrete k new.id) [
      | yes same ↦
          let is_new : new ≡ v = some-eq (sym (find-cons_self new s.versions) ∙ rw same at h) in
          rw (same, ← is_new, state, revision, trail_of_new) registered
      | no other ↦ audited.trail k v (sym (find-cons_ne k new s.versions other) ∙ h)
    ];
    no_orphan = λ k h. elim (ℕ_discrete k new.id) [
      | yes same ↦ rw same trail_of_new
      | no other ↦ audited.no_orphan k (sym (find-cons_ne k new s.versions other) ∙ h)
    ];
  }

-- A registration keeps the trail of every version complete, the new one included.
pub register_new-IsAudited :
    (p : Principal) (c k fresh : Uuid) (key : String) (values : Registration)
    (collection : Collection) (s s' : Store) (v : DocumentVersion)
    → IsAudited s
    → register_new p c k fresh key values collection s ≡ ok (v, s')
    → IsAudited s'
unfolding registered_version
register_new-IsAudited p c k fresh key values collection s s' v audited h =
    let r = register_new-IsRegistered p c k fresh key values collection s s' v h in
    let kept =
      insert_received-IsAudited v s audited r.free (ap (λ (x : DocumentVersion). x.state) r.version)
        (ap (λ (x : DocumentVersion). x.state_revision) r.version) in
    rw r.stored (record { trail = kept.trail; no_orphan = kept.no_orphan })

Document-IsKeyed :
    (p : Principal) (c : Uuid) (values : Registration) (v : DocumentVersion)
    (documents : List SourceDocument) (s : Store)
    → IsKeyed s
    → Document p c values v.document_id s (record s { documents = documents })
    → IsKeyed (record s { documents = documents; versions = v ∷ s.versions })
unfolding any
Document-IsKeyed p c values v documents s keyed (known d found id same) =
    let e : documents ≡ s.documents = ap (λ (x : Store). x.documents) same in
    rw e (record {
      distinct = keyed.distinct;
      foreign = λ k h. ground (
        arith,
        keyed.foreign k h,
        find_apart k (has_source p c values.source_key) s.documents d found h,
      );
    })
Document-IsKeyed p c values v documents s keyed (created d unknown id has free same) =
    let e : documents ≡ d ∷ s.documents = ap (λ (x : Store). x.documents) same in
    rw e (record {
      distinct = (rw id at free, keyed.distinct);
      foreign = λ k h. ground (arith, keyed.foreign k);
    })

-- A registration keeps the primary key of the documents, that no two have the same id, and the
-- foreign key of the versions, that the document of each is stored.
pub register_new-IsKeyed :
    (p : Principal) (c k fresh : Uuid) (key : String) (values : Registration)
    (collection : Collection) (s s' : Store) (v : DocumentVersion)
    → IsKeyed s
    → register_new p c k fresh key values collection s ≡ ok (v, s')
    → IsKeyed s'
unfolding registered_version
register_new-IsKeyed p c k fresh key values collection s s' v keyed h =
    let r = register_new-IsRegistered p c k fresh key values collection s s' v h in
    let id : v.document_id ≡ r.document_id =
      ap (λ (x : DocumentVersion). x.document_id) r.version in
    rw r.stored (Document-IsKeyed p c values v r.documents s keyed (rw id r.document))
