-- ===== src/Ingestion/Publication/Joined.antt =====
-- migrations/versions: the primary key of the chunks and the foreign key of the publications, under
-- the statements that write them.
pub mod Statements
pub mod Stages
pub mod Replaced
use atlas_rag.Common.{
  ℕ, List, any, update_where, All, ◌≡◌, Bool, true, ◌==◌, Option, ◌∷◌, false, arith, Bool-cases,
  String, [], inl, inr, ◌&&◌, ◌∙◌, any-implies, some, none,
}
use atlas_rag.Database.{Store, StoredChunk, Uuid, IndexPublication}
use atlas_rag.Ingestion.Publication.Artifacts.{is_chunk_at, insert_chunk, insert_chunks, is_beside}
use atlas_rag.Ingestion.Publication.Activation.Revoked.{HasForeignKeys}
use atlas_rag.Ingestion.NativeJobs.{ClaimedNativeJob}
use atlas_rag.Database.Leads.{Keeps, Leads-pure, Leads-bind}
use atlas_rag.Ingestion.Chunking.{ChunkRecord}

-- No two chunks have the same id.
abbrev pub AreApart : List StoredChunk → Type 0
AreApart [] = Unit
AreApart (c ∷ chunks) = (any (λ d. d.id == c.id) chunks ≡ false) × AreApart chunks

abbrev pub has_chunk : List StoredChunk → IndexPublication → Bool
has_chunk chunks p =
    any (is_chunk_at p.tenant_id p.collection_id p.document_version_id p.chunk_id) chunks

-- The primary key of the chunks, and the chunk of each publication in its version.
pub record IsJoined (s : Store) : Type 0 where
  pub apart : AreApart s.chunks
  pub joined : All (λ p. has_chunk s.chunks p ≡ true) s.publications

apart_from :
    (k v : Uuid) (chunks : List StoredChunk)
    → any (λ d. d.id == k) chunks ≡ false
    → All (λ d. k ≡ d.id → v ≡ d.document_version_id) chunks
unfolding any
apart_from k v [] h = tt
apart_from k v (d ∷ chunks) h =
    ((λ same. absurd (ground arith)), apart_from k v chunks (ground arith))

at_implies_id :
    (t c v k : Uuid) (chunks : List StoredChunk)
    → All (λ d. is_chunk_at t c v k d ≡ true → (d.id == k) ≡ true) chunks
unfolding is_chunk_at
at_implies_id t c v k [] = tt
at_implies_id t c v k (d ∷ chunks) = ((λ h. ground arith), at_implies_id t c v k chunks)

version_of_chunk :
    (t c v k : Uuid) (chunks : List StoredChunk)
    → AreApart chunks
    → any (is_chunk_at t c v k) chunks ≡ true
    → All (λ d. k ≡ d.id → v ≡ d.document_version_id) chunks
unfolding any is_chunk_at
version_of_chunk t c v k [] apart h = tt
version_of_chunk t c v k (d ∷ chunks) apart h = elim (Bool-cases (is_chunk_at t c v k d)) [
  | inl here ↦
      let id : d.id ≡ k = ground arith in
      ((λ same. ground arith), apart_from k v chunks (rw id at apart.0))
  | inr elsewhere ↦
      let later : any (is_chunk_at t c v k) chunks ≡ true = ground arith in
      let listed =
        any-implies (is_chunk_at t c v k) (λ e. e.id == k) chunks (at_implies_id t c v k chunks)
          later in
      (
        (λ same. let clash = rw (← same) at apart.0 in absurd (cc)),
        version_of_chunk t c v k chunks apart.1 later,
      )
]

versions_of_chunks :
    (chunks : List StoredChunk) (publications : List IndexPublication)
    → AreApart chunks
    → All (λ p. has_chunk chunks p ≡ true) publications
    → All
        (λ p. All (λ c. p.chunk_id ≡ c.id → p.document_version_id ≡ c.document_version_id) chunks)
        publications
versions_of_chunks chunks [] apart h = tt
versions_of_chunks chunks (p ∷ publications) apart h = (
  version_of_chunk p.tenant_id p.collection_id p.document_version_id p.chunk_id chunks apart h.0,
  versions_of_chunks chunks publications apart h.1,
)

pub IsJoined-HasForeignKeys : (s : Store) → IsJoined s → HasForeignKeys s
IsJoined-HasForeignKeys s h = versions_of_chunks s.chunks s.publications h.apart h.joined

pub other_tables-IsJoined :
    (s s' : Store)
    → s'.chunks ≡ s.chunks
    → s'.publications ≡ s.publications
    → IsJoined s
    → IsJoined s'
other_tables-IsJoined s s' chunks publications h = record {
  apart = rw chunks h.apart;
  joined = rw (chunks, publications) h.joined;
}

joined-cons :
    (new : StoredChunk) (chunks : List StoredChunk) (publications : List IndexPublication)
    → All (λ p. has_chunk chunks p ≡ true) publications
    → All (λ p. has_chunk (new ∷ chunks) p ≡ true) publications
unfolding any
joined-cons new chunks [] h = tt
joined-cons new chunks (p ∷ publications) h =
    (ground (arith, h.0), joined-cons new chunks publications h.1)

insert_chunk-IsJoined : (new : StoredChunk) → Keeps IsJoined (insert_chunk new)
unfolding insert_chunk
insert_chunk-IsJoined new = record {
  leads = λ s s' u p h.
      elim (Bool-cases (any (λ c. is_beside new c && (c.id == new.id)) s.chunks)) [
        | inl present ↦ let same : s' ≡ s = ground arith in rw same p
        | inr fresh ↦
            let free : any (λ c. c.id == new.id) s.chunks ≡ false = ground arith in
            let same : s' ≡ record s { chunks = new ∷ s.chunks } = ground arith in
            rw same (record {
              apart = (free, p.apart);
              joined = joined-cons new s.chunks s.publications p.joined;
            })
      ];
}

pub insert_chunks-IsJoined :
    (job : ClaimedNativeJob) (artifact_id : Option Uuid) (key : String) (chunks : List ChunkRecord)
    → Keeps IsJoined (insert_chunks job artifact_id key chunks)
unfolding insert_chunks
insert_chunks-IsJoined job artifact_id key [] = Leads-pure tt (λ s p. p)
insert_chunks-IsJoined job none key (c ∷ chunks) = record { leads = λ s s' u p h. absurd (cc) }
insert_chunks-IsJoined job (some k) key (c ∷ chunks) =
    Leads-bind (insert_chunk-IsJoined _) (λ _. insert_chunks-IsJoined job (some k) key chunks)

pub joined-update :
    (q : IndexPublication → Bool) (f : IndexPublication → IndexPublication)
    (chunks : List StoredChunk) (publications : List IndexPublication)
    → ((p : IndexPublication) → has_chunk chunks (f p) ≡ has_chunk chunks p)
    → All (λ p. has_chunk chunks p ≡ true) publications
    → All (λ p. has_chunk chunks p ≡ true) (update_where q f publications)
unfolding update_where
joined-update q f chunks [] same h = tt
joined-update q f chunks (p ∷ publications) same h = elim (Bool-cases (q p)) [
  | inl hit ↦ rw hit (same p ∙ h.0, joined-update q f chunks publications same h.1)
  | inr miss ↦ rw miss (h.0, joined-update q f chunks publications same h.1)
]
