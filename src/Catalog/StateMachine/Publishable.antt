-- ===== src/Catalog/StateMachine/Publishable.antt =====
-- app/services/catalog/state_machine.py: the pipeline has no dead end.
use atlas_rag.Catalog.StateMachine.Lifecycle.{History}
use atlas_rag.Catalog.StateMachine.Accepted.{Accepted, IsProgress, IsReasoned}
use atlas_rag.Catalog.StateMachine.{
  PublicationEvidence, VersionSnapshot, Change, Operation, failure_states,
}
use atlas_rag.Common.{true, ℕ, ◌≡◌, none, ◌≤◌, some, refl}
use atlas_rag.Catalog.Enums.{VersionState, Among}

-- Complete evidence of one chunk.
abbrev complete : PublicationEvidence
complete = record {
  chunk_count = 1;
  embedded_chunk_count = 1;
  lexical_publication_count = 1;
  vector_publication_count = 1;
  chunk_manifest_published = true;
  index_manifest_published = true;
}

-- The next step of a worker.
abbrev advance : VersionSnapshot → VersionState → Change
advance s target = record {
  target = target;
  expected_revision = s.revision;
  progress_completed = none;
  progress_total = none;
  terminal_reason_code = none;
  publication_evidence = some complete;
  operation = Operation.advance;
}

-- Accepted changes lead to a version that is ready, in so many at most.
pub IsPublishable : VersionSnapshot → ℕ → Type 0
IsPublishable s most =
    (n : ℕ) × (t : VersionSnapshot) × History s n t × (t.state ≡ VersionState.ready) × (n ≤ most)

-- A state that work goes on from, or that is ready, is reached without a reason.
abbrev unreasoned : (target : VersionState) → ¬ Among target failure_states → IsReasoned target none
unreasoned target other = record {
  failure_has_reason = λ a. absurd (other a);
  active_has_none = λ _. refl;
}

abbrev HasProgress : VersionSnapshot → Type 0
HasProgress s = IsProgress s.progress_completed s.progress_total
