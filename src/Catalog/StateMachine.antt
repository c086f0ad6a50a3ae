-- ===== src/Catalog/StateMachine.antt =====
-- app/services/catalog/state_machine.py: one optimistic, monotonic transition of a document
-- version. An exception is a value of `TransitionError`, one constructor for each `raise`;
-- `StaleTransitionError` is `stale`, and the others are `IllegalTransitionError`. The progress
-- numbers are integers, since the code tests for negative ones. The `operation` string is
-- `Operation`, with `other` for any string that no branch names.
pub mod Edges
pub mod Accepted
pub mod Lifecycle
pub mod Publishable
use mathlib.Core.Option.{get_or}
use atlas_rag.Common.{
  ℕ, ◌+◌, Bool, true, false, not, ◌&&◌, String, Option, none, some, List, [], ◌∷◌, ltb, ◌==◌,
  if◌then◌else◌,
}
use atlas_rag.Common.Int.{ℤ, pos, ltb_ℤ}
use atlas_rag.Common.Result.{Result, ok, err, ◌>>◌, raise_if}
use atlas_rag.Catalog.Enums.{VersionState, ◌is◌, is_in}

pub data Operation : Type 0 where
  delete supersede reprocess cancel retry reconcile advance : Operation
  other : String → Operation

pub data TransitionError : Type 0 where
  stale : (expected found : ℕ) → TransitionError
  cannot_reprocess : VersionState → TransitionError
  completed_decreased total_decreased progress_negative completed_exceeds_total : TransitionError
  unknown_operation : String → TransitionError
  not_allowed : Operation → (source target : VersionState) → TransitionError
  reason_required reason_forbidden : TransitionError
  evidence_required : TransitionError

pub record PublicationEvidence : Type 0 where
  pub chunk_count : ℕ
  pub embedded_chunk_count : ℕ
  pub lexical_publication_count : ℕ
  pub vector_publication_count : ℕ
  pub chunk_manifest_published : Bool
  pub index_manifest_published : Bool

unfoldable pub is_complete : PublicationEvidence → Bool
is_complete e =
    ltb 0 e.chunk_count
    && (e.embedded_chunk_count == e.chunk_count)
    && (e.lexical_publication_count == e.chunk_count)
    && (e.vector_publication_count == e.chunk_count)
    && e.chunk_manifest_published
    && e.index_manifest_published

pub record VersionSnapshot : Type 0 where
  pub state : VersionState
  pub revision : ℕ
  pub progress_completed : ℤ
  pub progress_total : ℤ
  pub terminal_reason_code : Option String

-- `TERMINAL_STATES`
abbrev pub terminal_states : List VersionState
terminal_states =
    VersionState.ready ∷ VersionState.ready_with_warnings ∷ VersionState.deduplicated
    ∷ VersionState.rejected ∷ VersionState.failed ∷ VersionState.quarantined
    ∷ VersionState.superseded ∷ VersionState.cancelled ∷ VersionState.deleted ∷ []

-- `_FORWARD_TRANSITIONS`, with the empty set for the states that have no entry
abbrev pub forward_transitions : VersionState → List VersionState
forward_transitions VersionState.received =
    VersionState.validating ∷ VersionState.cancelled ∷ VersionState.deleted ∷ []
forward_transitions VersionState.validating =
    VersionState.queued ∷ VersionState.deduplicated ∷ VersionState.rejected ∷ VersionState.failed
    ∷ VersionState.quarantined ∷ VersionState.cancelled ∷ []
forward_transitions VersionState.queued =
    VersionState.parsing ∷ VersionState.cancelled ∷ VersionState.failed ∷ []
forward_transitions VersionState.parsing =
    VersionState.ocr ∷ VersionState.normalizing ∷ VersionState.rejected ∷ VersionState.failed
    ∷ VersionState.quarantined ∷ VersionState.cancelled ∷ []
forward_transitions VersionState.ocr =
    VersionState.normalizing ∷ VersionState.failed ∷ VersionState.cancelled ∷ []
forward_transitions VersionState.normalizing =
    VersionState.chunking ∷ VersionState.failed ∷ VersionState.cancelled ∷ []
forward_transitions VersionState.chunking =
    VersionState.embedding ∷ VersionState.failed ∷ VersionState.cancelled ∷ []
forward_transitions VersionState.embedding =
    VersionState.indexing ∷ VersionState.failed ∷ VersionState.cancelled ∷ []
forward_transitions VersionState.indexing =
    VersionState.ready ∷ VersionState.ready_with_warnings ∷ VersionState.failed
    ∷ VersionState.cancelled ∷ []
forward_transitions _ = []

-- `_DELETABLE_STATES`: every state but `deleted`
abbrev deletable : VersionState → Bool
deletable s = not (s is VersionState.deleted)

-- `_SUPERSEDEABLE_STATES`, which is also the set of states that need publication evidence
abbrev pub ready_states : List VersionState
ready_states = VersionState.ready ∷ VersionState.ready_with_warnings ∷ []

-- `_REPROCESSABLE_STATES`
abbrev pub reprocessable_states : List VersionState
reprocessable_states =
    VersionState.ready ∷ VersionState.ready_with_warnings ∷ VersionState.failed
    ∷ VersionState.cancelled ∷ []

-- The `failure_states` of `_validate_terminal_reason`
abbrev pub failure_states : List VersionState
failure_states =
    VersionState.deduplicated ∷ VersionState.rejected ∷ VersionState.failed
    ∷ VersionState.quarantined ∷ []

unfoldable pub validate_reprocessing_source : VersionState → Result TransitionError (Unit {0})
validate_reprocessing_source state =
    raise_if (not (is_in state reprocessable_states)) (cannot_reprocess state)

unfoldable pub validate_progress :
    VersionSnapshot → (completed total : ℤ) → Result TransitionError (Unit {0})
validate_progress snapshot completed total = do
  raise_if (ltb_ℤ completed snapshot.progress_completed) completed_decreased
  raise_if (ltb_ℤ total snapshot.progress_total) total_decreased
  raise_if (if ltb_ℤ completed (pos 0) then true else ltb_ℤ total (pos 0)) progress_negative
  raise_if (ltb_ℤ (pos 0) total && ltb_ℤ total completed) completed_exceeds_total

-- The value of `allowed`, or none where the operation is unknown.
unfoldable pub allowed : Operation → (source target : VersionState) → Option Bool
allowed delete s t = some (deletable s && (t is VersionState.deleted))
allowed supersede s t = some (is_in s ready_states && (t is VersionState.superseded))
allowed reprocess s t = some (is_in s reprocessable_states && (t is VersionState.queued))
allowed cancel s t = some (not (is_in s terminal_states) && (t is VersionState.cancelled))
allowed retry s t = some ((s is VersionState.failed) && (t is VersionState.queued))
allowed reconcile s t = some (is_in s ready_states && (t is VersionState.failed))
allowed advance s t = some (is_in t (forward_transitions s))
allowed (other name) s t = none

-- The last two `raise`s of `_validate_operation`.
abbrev refuse :
    Operation → (source target : VersionState) → Option Bool → Result TransitionError (Unit {0})
refuse (other name) s t none = err (unknown_operation name)
refuse operation s t none = err (not_allowed operation s t)
refuse operation s t (some permitted) = raise_if (not permitted) (not_allowed operation s t)

unfoldable pub validate_operation :
    (source target : VersionState) → Operation → Result TransitionError (Unit {0})
unfolding allowed
validate_operation s t operation = refuse operation s t (allowed operation s t)

abbrev pub is_none : Option String → Bool
is_none none = true
is_none (some reason) = false

unfoldable pub validate_terminal_reason :
    VersionState → Option String → Result TransitionError (Unit {0})
validate_terminal_reason target reason = do
  raise_if (is_in target failure_states && is_none reason) reason_required
  raise_if (not (is_in target terminal_states) && not (is_none reason)) reason_forbidden

-- `publication_evidence is not None and publication_evidence.is_complete()`
abbrev pub evidence_complete : Option PublicationEvidence → Bool
evidence_complete none = false
evidence_complete (some e) = is_complete e

unfoldable pub validate_evidence :
    VersionState → Option PublicationEvidence → Result TransitionError (Unit {0})
validate_evidence target evidence =
    raise_if (is_in target ready_states && not (evidence_complete evidence)) evidence_required

-- The keyword arguments of a transition, with `none` for one that is not given.
pub record Change : Type 0 where
  pub target : VersionState
  pub expected_revision : ℕ
  pub progress_completed : Option ℤ
  pub progress_total : Option ℤ
  pub terminal_reason_code : Option String
  pub publication_evidence : Option PublicationEvidence
  pub operation : Operation

unfoldable pub transition_version :
    VersionSnapshot → Change → Result TransitionError VersionSnapshot
transition_version snapshot change = do
  raise_if (not (snapshot.revision == change.expected_revision))
      (stale change.expected_revision snapshot.revision)
  let next_completed = get_or change.progress_completed snapshot.progress_completed
  let next_total = get_or change.progress_total snapshot.progress_total
  validate_progress snapshot next_completed next_total
  validate_operation snapshot.state change.target change.operation
  validate_terminal_reason change.target change.terminal_reason_code
  validate_evidence change.target change.publication_evidence
  ok (record {
    state = change.target;
    revision = snapshot.revision + 1;
    progress_completed = next_completed;
    progress_total = next_total;
    terminal_reason_code = change.terminal_reason_code;
  })
