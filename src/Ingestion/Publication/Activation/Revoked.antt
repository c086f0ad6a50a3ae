-- ===== src/Ingestion/Publication/Activation/Revoked.antt =====
-- app/services/ingestion/publication_promotion.py: the revocation of the source's publications, and
-- the evidence of the version that replaces it.
use atlas_rag.Common.{
  ℕ, any, count_if, All, ◌≡◌, update_where, false, List, ◌≢◌, count_if-update_where, true, arith,
  ◌∷◌, Bool-cases, Option-cases, refl, [], inl, inr,
}
use atlas_rag.Database.{Store, SearchTarget, PublicationKind, IndexPublication, StoredChunk}
use atlas_rag.Ingestion.Publication.Artifacts.{is_original_run, chunk_artifact}
use atlas_rag.Ingestion.Publication.Evidence.{counts_publication, evidence_of, joins_chunk}
use atlas_rag.Ingestion.Publication.{ClaimedPublicationJob}
use atlas_rag.Ingestion.Publication.Activation.{is_source_row, revoke_source, is_of_source}
use atlas_rag.Ingestion.Publication.Index.{revoke, is_live_of}

-- The foreign key of the publications, with the primary key of the chunks: the chunk of a
-- publication is a chunk of its version.
abbrev pub HasForeignKeys : Store → Type 0
HasForeignKeys s =
    All (λ p. All (λ c. p.chunk_id ≡ c.id → p.document_version_id ≡ c.document_version_id) s.chunks)
      s.publications

pub source_differs :
    (job : ClaimedPublicationJob)
    → is_original_run job ≡ false
    → job.source_document_version_id ≢ job.native.document_version_id
unfolding is_original_run
source_differs job h e = ground arith

-- A publication of the source joins no chunk of the version.
joins_none :
    (job : ClaimedPublicationJob) (p : IndexPublication) (chunks : List StoredChunk)
    → is_original_run job ≡ false
    → is_of_source job p ≡ true
    → All (λ c. p.chunk_id ≡ c.id → p.document_version_id ≡ c.document_version_id) chunks
    → any (joins_chunk job.native p.tenant_id p.collection_id p.chunk_id) chunks ≡ false
unfolding any joins_chunk is_of_source
joins_none job p [] other of_source keys = refl
joins_none job p (c ∷ chunks) other of_source keys =
    let rest = joins_none job p chunks other of_source keys.1 in
    let differs = source_differs job other in
    elim (Bool-cases (joins_chunk job.native p.tenant_id p.collection_id p.chunk_id c)) [
      | inl joined ↦
          let same : p.document_version_id ≡ c.document_version_id = keys.0 (ground arith) in
          absurd (ground arith)
      | inr apart ↦ ground arith
    ]

counts-revoke :
    (job : ClaimedPublicationJob) (target : SearchTarget) (kind : PublicationKind) (now : ℕ)
    (p : IndexPublication) (chunks : List StoredChunk)
    → is_original_run job ≡ false
    → All (λ c. p.chunk_id ≡ c.id → p.document_version_id ≡ c.document_version_id) chunks
    → is_of_source job p ≡ true
    → counts_publication job.native target kind chunks (revoke now p)
      ≡ counts_publication job.native target kind chunks p
unfolding counts_publication revoke
counts-revoke job target kind now p chunks other keys of_source =
    let none_joined = joins_none job p chunks other of_source keys in ground arith

counts-revoke_all :
    (job : ClaimedPublicationJob) (target : SearchTarget) (kind : PublicationKind) (now : ℕ)
    (ps : List IndexPublication) (chunks : List StoredChunk)
    → is_original_run job ≡ false
    → All
        (λ p. All (λ c. p.chunk_id ≡ c.id → p.document_version_id ≡ c.document_version_id) chunks)
        ps
    → All
        (λ p.
          is_of_source job p ≡ true
          → counts_publication job.native target kind chunks (revoke now p)
            ≡ counts_publication job.native target kind chunks p)
        ps
counts-revoke_all job target kind now [] chunks other keys = tt
counts-revoke_all job target kind now (p ∷ ps) chunks other keys = (
  counts-revoke job target kind now p chunks other keys.0,
  counts-revoke_all job target kind now ps chunks other keys.1,
)

-- The revocation of the source takes nothing from the evidence of the version.
pub evidence_of-revoke_source :
    (job : ClaimedPublicationJob) (target : SearchTarget) (now : ℕ) (s : Store)
    → is_original_run job ≡ false
    → HasForeignKeys s
    → evidence_of job.native target (revoke_source job now s) ≡ evidence_of job.native target s
unfolding evidence_of revoke_source chunk_artifact
evidence_of-revoke_source job target now s other keys =
    let counted : (kind : PublicationKind)
        → count_if (counts_publication job.native target kind s.chunks)
            (update_where (is_of_source job) (revoke now) s.publications)
          ≡ count_if (counts_publication job.native target kind s.chunks) s.publications =
      λ kind.
        count_if-update_where (counts_publication job.native target kind s.chunks)
          (is_of_source job) (revoke now) s.publications
          (counts-revoke_all job target kind now s.publications s.chunks other keys) in
    rw (counted PublicationKind.lexical, counted PublicationKind.vector) refl

is_live-revoke :
    (job : ClaimedPublicationJob) (now : ℕ) (p : IndexPublication)
    → is_of_source job p ≡ true
    → is_source_row job (revoke now p) ≡ false
unfolding is_source_row is_live_of revoke
is_live-revoke job now p h = elim (Option-cases p.deleted_at) [
  | inl live ↦ ground arith
  | inr (t, dead) ↦ ground arith
]

is_source_row-not :
    (job : ClaimedPublicationJob) (p : IndexPublication)
    → is_of_source job p ≡ false
    → is_source_row job p ≡ false
unfolding is_source_row is_live_of is_of_source
is_source_row-not job p h = ground arith

-- No publication of the source is live.
pub revoke_source-none :
    (job : ClaimedPublicationJob) (now : ℕ) (ps : List IndexPublication)
    → count_if (is_source_row job) (update_where (is_of_source job) (revoke now) ps) ≡ 0
unfolding count_if update_where
revoke_source-none job now [] = refl
revoke_source-none job now (p ∷ ps) = elim (Bool-cases (is_of_source job p)) [
  | inl source ↦
      let dead = is_live-revoke job now p source in
      rw (source, dead) (revoke_source-none job now ps)
  | inr other ↦
      let not_source = is_source_row-not job p other in
      rw (other, not_source) (revoke_source-none job now ps)
]
