-- ===== src/Catalog/Enums.antt =====
-- app/services/catalog/enums.py: the states of a document version and of a job, and the stages.
use atlas_rag.Common.{
  ℕ, ◌≡◌, refl, ap, sym, ◌∙◌, ◌⊎◌, inl, inr, Bool, true, false, ◌||◌, List, [], ◌∷◌, ◌==◌, ==_iff,
  ==_self, if◌then◌else◌, ◌≢◌, Bool-cases,
}

pub data VersionState : Type 0 where
  received validating queued parsing ocr normalizing chunking embedding indexing : VersionState
  ready ready_with_warnings deduplicated rejected failed quarantined : VersionState
  superseded cancelled deleted : VersionState

pub data IngestionStage : Type 0 where
  intake preflight native_parse ocr normalize chunk embed index delete reprocess : IngestionStage

pub data JobState : Type 0 where
  pending leased running retry_scheduled succeeded failed cancelled dead_lettered : JobState

-- The position of a member in its class: members are compared by it.
unfoldable pub version_state_code : VersionState → ℕ
version_state_code VersionState.received = 0
version_state_code VersionState.validating = 1
version_state_code VersionState.queued = 2
version_state_code VersionState.parsing = 3
version_state_code VersionState.ocr = 4
version_state_code VersionState.normalizing = 5
version_state_code VersionState.chunking = 6
version_state_code VersionState.embedding = 7
version_state_code VersionState.indexing = 8
version_state_code VersionState.ready = 9
version_state_code VersionState.ready_with_warnings = 10
version_state_code VersionState.deduplicated = 11
version_state_code VersionState.rejected = 12
version_state_code VersionState.failed = 13
version_state_code VersionState.quarantined = 14
version_state_code VersionState.superseded = 15
version_state_code VersionState.cancelled = 16
version_state_code VersionState.deleted = 17

infix 50 ◌is◌
unfoldable pub ◌is◌ : VersionState → VersionState → Bool
unfolding version_state_code
s is t = version_state_code s == version_state_code t

-- `s in states`
unfoldable pub is_in : VersionState → List VersionState → Bool
unfolding ◌is◌
is_in s [] = false
is_in s (t ∷ states) = s is t || is_in s states

-- A state is one of those listed.
abbrev pub Among : VersionState → List VersionState → Type 0
Among s [] = ⊥
Among s (t ∷ states) = (s ≡ t) ⊎ Among s states

state_of_code : ℕ → VersionState
state_of_code n =
    if n == 0
    then VersionState.received
    else if n == 1
    then VersionState.validating
    else if n == 2
    then VersionState.queued
    else if n == 3
    then VersionState.parsing
    else if n == 4
    then VersionState.ocr
    else if n == 5
    then VersionState.normalizing
    else if n == 6
    then VersionState.chunking
    else if n == 7
    then VersionState.embedding
    else if n == 8
    then VersionState.indexing
    else if n == 9
    then VersionState.ready
    else if n == 10
    then VersionState.ready_with_warnings
    else if n == 11
    then VersionState.deduplicated
    else if n == 12
    then VersionState.rejected
    else if n == 13
    then VersionState.failed
    else if n == 14
    then VersionState.quarantined
    else if n == 15
    then VersionState.superseded
    else if n == 16
    then VersionState.cancelled
    else VersionState.deleted

state_of_code_lem : (s : VersionState) → state_of_code (version_state_code s) ≡ s
unfolding state_of_code version_state_code
state_of_code_lem VersionState.received = refl
state_of_code_lem _ = refl

pub is-eq : (s t : VersionState) → (s is t) ≡ true → s ≡ t
unfolding ◌is◌
is-eq s t h = sym (state_of_code_lem s) ∙ ap state_of_code ((==_iff _ _).0 h) ∙ state_of_code_lem t

pub is_self : (s : VersionState) → (s is s) ≡ true
unfolding ◌is◌
is_self s = ==_self (version_state_code s)

or-eq-true : (a b : Bool) → (a || b) ≡ true → (a ≡ true) ⊎ (b ≡ true)
or-eq-true true b h = inl refl
or-eq-true false b h = inr h

or_right : (a b : Bool) → b ≡ true → (a || b) ≡ true
or_right true b h = refl
or_right false b h = h

or_left : (a b : Bool) → a ≡ true → (a || b) ≡ true
or_left true b h = refl
or_left false b h = cc

is_in_cons :
    (s t : VersionState) (states : List VersionState)
    → is_in s (t ∷ states) ≡ (s is t || is_in s states)
unfolding is_in
is_in_cons s t states = refl

is_in_nil : (s : VersionState) → is_in s [] ≡ false
unfolding is_in
is_in_nil s = refl

pub is_in-Among :
    (s : VersionState) (states : List VersionState) → is_in s states ≡ true → Among s states
is_in-Among s [] h = cc (is_in_nil s)
is_in-Among s (t ∷ states) h =
    elim (or-eq-true (s is t) (is_in s states) (sym (is_in_cons s t states) ∙ h)) [
      | inl same ↦ inl (is-eq s t same)
      | inr later ↦ inr (is_in-Among s states later)
    ]

pub Among-is_in :
    (s : VersionState) (states : List VersionState) → Among s states → is_in s states ≡ true
Among-is_in s [] h = absurd h
Among-is_in s (t ∷ states) (inl same) =
    is_in_cons s t states ∙ or_left (s is t) (is_in s states) (rw same (is_self t))
Among-is_in s (t ∷ states) (inr later) =
    is_in_cons s t states ∙ or_right (s is t) (is_in s states) (Among-is_in s states later)

pub is-false : (s t : VersionState) → s ≢ t → (s is t) ≡ false
is-false s t n = elim (Bool-cases (s is t)) [
  | inl same ↦ absurd (n (is-eq s t same))
  | inr other ↦ other
]

stage_code : IngestionStage → ℕ
stage_code IngestionStage.intake = 0
stage_code IngestionStage.preflight = 1
stage_code IngestionStage.native_parse = 2
stage_code IngestionStage.ocr = 3
stage_code IngestionStage.normalize = 4
stage_code IngestionStage.chunk = 5
stage_code IngestionStage.embed = 6
stage_code IngestionStage.index = 7
stage_code IngestionStage.delete = 8
stage_code IngestionStage.reprocess = 9

unfoldable pub same_stage : IngestionStage → IngestionStage → Bool
unfolding stage_code
same_stage a b = stage_code a == stage_code b

pub same_stage_self : (a : IngestionStage) → same_stage a a ≡ true
unfolding same_stage
same_stage_self a = ==_self (stage_code a)
