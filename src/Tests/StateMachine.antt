-- ===== src/Tests/StateMachine.antt =====
-- app/services/catalog/state_machine.py at the inputs of tests/test_catalog_state_machine.py.
use atlas_rag.Common.{ℕ, none, true, Option, some, ◌≡◌, arith, ◌≢◌, inr, ◌+◌, ◌⊎◌, ◌↔◌, refl}
use atlas_rag.Common.Int.{pos, ◌≤ℤ◌}
use atlas_rag.Catalog.Enums.{VersionState, is_in, ◌is◌}
use atlas_rag.Catalog.StateMachine.{
  PublicationEvidence, transition_version, Change, VersionSnapshot, validate_progress, Operation,
  validate_operation, allowed, evidence_required, stale, validate_terminal_reason,
  validate_evidence, is_complete,
}
use atlas_rag.Catalog.StateMachine.Lifecycle.{
  IsConsistent, History, start, deleted_is_final, resumes_by_request, History-keeps,
  transition_version_fences,
}
use atlas_rag.Catalog.StateMachine.Edges.{rank}
use atlas_rag.Common.Result.{ok, err}
use atlas_rag.Catalog.StateMachine.Accepted.{Accepted, after, transition_version_iff}

abbrev at : VersionState → ℕ → VersionSnapshot
at state revision = record {
  state = state;
  revision = revision;
  progress_completed = pos 3;
  progress_total = pos 3;
  terminal_reason_code = none;
}

abbrev published : PublicationEvidence
published = record {
  chunk_count = 3;
  embedded_chunk_count = 3;
  lexical_publication_count = 3;
  vector_publication_count = 3;
  chunk_manifest_published = true;
  index_manifest_published = true;
}

abbrev advance_to : VersionState → ℕ → Option PublicationEvidence → Change
advance_to target revision evidence = record {
  target = target;
  expected_revision = revision;
  progress_completed = none;
  progress_total = none;
  terminal_reason_code = none;
  publication_evidence = evidence;
  operation = Operation.advance;
}

program : Unit {0}
unfolding transition_version validate_progress validate_operation allowed is_in ◌is◌
    validate_terminal_reason validate_evidence is_complete
program = tt

ready_with_evidence :
    transition_version
      (at VersionState.indexing 8)
      (advance_to VersionState.ready 8 (some published))
    ≡ ok (at VersionState.ready 9)
unfolding program
ready_with_evidence = refl

ready_without_evidence :
    transition_version (at VersionState.indexing 8) (advance_to VersionState.ready 8 none)
    ≡ err evidence_required
unfolding program
ready_without_evidence = refl

starts :
    transition_version (at VersionState.received 0) (advance_to VersionState.validating 0 none)
    ≡ ok (at VersionState.validating 1)
unfolding program
starts = refl

transition_version_iff_example :
    (transition_version
        (at VersionState.indexing 8)
        (advance_to VersionState.ready 8 (some published))
      ≡ ok (at VersionState.ready 9))
    ↔ (Accepted (at VersionState.indexing 8) (advance_to VersionState.ready 8 (some published))
        × (at VersionState.ready 9
            ≡ after
                (at VersionState.indexing 8)
                (advance_to VersionState.ready 8 (some published))))
transition_version_iff_example =
    transition_version_iff (at VersionState.indexing 8)
      (advance_to VersionState.ready 8 (some published)) (at VersionState.ready 9)

at-IsConsistent : IsConsistent (at VersionState.indexing 8)
at-IsConsistent = record {
  progress = record {
    completed_nonneg = omega arith;
    total_nonneg = omega arith;
    bounded = inr (omega arith);
  };
  reasoned = record { failure_has_reason = λ a. ground arith; active_has_none = λ a. refl };
}

abbrev one_step : History (at VersionState.indexing 8) 1 (at VersionState.ready 9)
one_step = History.made start (advance_to VersionState.ready 8 (some published)) ready_with_evidence

History-keeps_example :
    IsConsistent (at VersionState.ready 9)
    × (◌≡◌ {A = ℕ} 9 (8 + 1))
    × (pos 3 ≤ℤ pos 3)
    × (pos 3 ≤ℤ pos 3)
History-keeps_example = History-keeps at-IsConsistent one_step

transition_version_fences_example :
    transition_version (at VersionState.validating 1) (advance_to VersionState.cancelled 0 none)
    ≡ err (stale 0 (0 + 1))
transition_version_fences_example =
    transition_version_fences (at VersionState.received 0) (at VersionState.validating 1)
      (advance_to VersionState.validating 0 none) (advance_to VersionState.cancelled 0 none) starts
      refl

deleted_is_final_example :
    transition_version (at VersionState.deleted 4) (advance_to VersionState.queued 4 none)
    ≢ ok (at VersionState.queued 5)
deleted_is_final_example =
    deleted_is_final (at VersionState.deleted 4) (at VersionState.queued 5)
      (advance_to VersionState.queued 4 none) refl

abbrev retry_change : Change
retry_change = record (advance_to VersionState.queued 4 none) { operation = Operation.retry }

retried : transition_version (at VersionState.failed 4) retry_change ≡ ok (at VersionState.queued 5)
unfolding program
retried = refl

resumes_by_request_example :
    (retry_change.operation ≡ Operation.retry) ⊎ (retry_change.operation ≡ Operation.reprocess)
unfolding rank
resumes_by_request_example =
    resumes_by_request (at VersionState.failed 4) (at VersionState.queued 5) retry_change retried
      (λ h. omega arith) (omega arith)
