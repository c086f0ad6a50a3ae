-- ===== src/Ingestion/Publication/Inputs.antt =====
-- app/services/ingestion/publication_claim.py: what a claim that is granted says of its inputs.
use atlas_rag.Ingestion.Publication.{
  ClaimedPublicationJob, is_expected, is_some, expected_state, needs_chunks, needs_embeddings,
}
use atlas_rag.Database.{DocumentVersion}
use atlas_rag.Common.{◌≡◌, true, false, ◌≤◌}
use atlas_rag.Catalog.Enums.{is_in}
use atlas_rag.Ingestion.Ocr.{ocr_stopped_states}
use atlas_rag.Database.Session.{Session}

-- A stage begins in its state, with the manifests that it reads.
pub record HasInputs (c : ClaimedPublicationJob) (v : DocumentVersion) : Type 0 where
  pub in_state : is_expected (expected_state c.stage) v.state ≡ true
  pub going_on : is_in v.state ocr_stopped_states ≡ false
  pub chunks : needs_chunks c.stage ≡ true → is_some c.chunk_object_key ≡ true
  pub embeddings : needs_embeddings c.stage ≡ true → is_some c.embedding_object_key ≡ true
  pub attempts : c.native.attempt_number ≤ c.native.max_attempts
