-- ===== src/Catalog/StateMachine/Accepted.antt =====
-- app/services/catalog/state_machine.py: exactly which transitions are made, and what they make.
use mathlib.Core.Option.{get_or, some-injective}
use atlas_rag.Common.{
  ◌≡◌, Bool, ◌⊎◌, Option, ◌<◌, true, String, ◌+◌, false, ◌↔◌, arith, some, none, refl, Bool-cases,
  inl, inr, sym, ◌∙◌, ap,
}
use atlas_rag.Common.Int.{ℤ, pos, ◌≤ℤ◌}
use atlas_rag.Catalog.StateMachine.{
  VersionSnapshot, PublicationEvidence, validate_progress, is_complete, validate_terminal_reason,
  validate_evidence, Change, Operation, validate_operation, failure_states, refuse, allowed,
  terminal_states, transition_version, ready_states,
}
use atlas_rag.Catalog.Enums.{VersionState, Among, is_in, Among-is_in, is_in-Among}
use atlas_rag.Common.Result.{raise_if, ok, Result, ◌>>◌, err}
use atlas_rag.Catalog.StateMachine.Edges.{
  Legal, IsReady, IsActive, allowed-Legal, IsReady-ready, terminal_iff, Legal-allowed,
  ready_states-IsReady,
}

abbrev pub next_completed : VersionSnapshot → Change → ℤ
next_completed s c = get_or c.progress_completed s.progress_completed

abbrev pub next_total : VersionSnapshot → Change → ℤ
next_total s c = get_or c.progress_total s.progress_total

-- A progress pair that a version may have: neither is negative, and a known total is not passed.
pub record IsProgress (completed total : ℤ) : Type 0 where
  pub completed_nonneg : pos 0 ≤ℤ completed
  pub total_nonneg : pos 0 ≤ℤ total
  pub bounded : (total ≡ pos 0) ⊎ (completed ≤ℤ total)

-- A reason stands beside each unsuccessful end, and beside no state that work goes on from.
pub record IsReasoned (s : VersionState) (reason : Option String) : Type 0 where
  pub failure_has_reason : Among s failure_states → (r : String) × (reason ≡ some r)
  pub active_has_none : IsActive s → reason ≡ none

-- What makes a version searchable: the counts agree, there is something, and both manifests are out.
pub record IsPublished (e : PublicationEvidence) : Type 0 where
  pub nonempty : 0 < e.chunk_count
  pub embedded : e.embedded_chunk_count ≡ e.chunk_count
  pub lexical : e.lexical_publication_count ≡ e.chunk_count
  pub vector : e.vector_publication_count ≡ e.chunk_count
  pub chunk_manifest : e.chunk_manifest_published ≡ true
  pub index_manifest : e.index_manifest_published ≡ true

-- The conditions of a transition, as the pipeline's contract states them.
pub record Accepted (s : VersionSnapshot) (c : Change) : Type 0 where
  pub fresh : s.revision ≡ c.expected_revision
  pub completed_grows : s.progress_completed ≤ℤ next_completed s c
  pub total_grows : s.progress_total ≤ℤ next_total s c
  pub progress : IsProgress (next_completed s c) (next_total s c)
  pub legal : Legal c.operation s.state c.target
  pub reasoned : IsReasoned c.target c.terminal_reason_code
  pub published :
      IsReady c.target
      → (e : PublicationEvidence) × (c.publication_evidence ≡ some e) × IsPublished e

abbrev pub after : VersionSnapshot → Change → VersionSnapshot
after s c = record {
  state = c.target;
  revision = s.revision + 1;
  progress_completed = next_completed s c;
  progress_total = next_total s c;
  terminal_reason_code = c.terminal_reason_code;
}

-- Each validation passes exactly under its condition.
validate_progress_iff :
    (s : VersionSnapshot) (completed total : ℤ)
    → (validate_progress s completed total ≡ ok tt) ↔ (
        (s.progress_completed ≤ℤ completed)
        × (s.progress_total ≤ℤ total)
        × IsProgress completed total)
unfolding validate_progress
validate_progress_iff s completed total = (λ h. ground arith, λ h. ground arith)

is_complete_iff : (e : PublicationEvidence) → (is_complete e ≡ true) ↔ IsPublished e
unfolding is_complete
is_complete_iff e = ground arith

refuse-ok :
    (o : Operation) (s t : VersionState) (r : Option Bool) → refuse o s t r ≡ ok tt → r ≡ some true
refuse-ok o s t (some true) h = refl
refuse-ok o s t (some false) h = cc
refuse-ok (Operation.other name) s t none h = cc
refuse-ok _ s t none h = cc

refuse-some-true : (o : Operation) (s t : VersionState) → refuse o s t (some true) ≡ ok tt
refuse-some-true Operation.delete s t = refl
refuse-some-true _ s t = refl

validate_operation_iff :
    (s t : VersionState) (operation : Operation)
    → (validate_operation s t operation ≡ ok tt) ↔ Legal operation s t
unfolding validate_operation
validate_operation_iff s t operation = (
  λ h. allowed-Legal operation s t (refuse-ok operation s t (allowed operation s t) h),
  λ l. rw (Legal-allowed l) (refuse-some-true operation s t),
)

validate_terminal_reason_iff :
    (t : VersionState) (reason : Option String)
    → (validate_terminal_reason t reason ≡ ok tt) ↔ IsReasoned t reason
unfolding validate_terminal_reason
validate_terminal_reason_iff t none = (
  λ h. record {
    failure_has_reason = λ a. absurd (ground (arith, Among-is_in t failure_states a));
    active_has_none = λ a. refl;
  },
  λ r. elim (Bool-cases (is_in t failure_states)) [
    | inl failing ↦
        let (x, e) = r.failure_has_reason (is_in-Among t failure_states failing) in absurd (cc)
    | inr other ↦ ground arith
  ],
)
validate_terminal_reason_iff t (some reason) = (
  λ h. record {
    failure_has_reason = λ a. (reason, refl);
    active_has_none = λ a. ground (arith, (terminal_iff t).1 a);
  },
  λ r. elim (Bool-cases (is_in t terminal_states)) [
    | inl ended ↦ ground arith
    | inr active ↦ let e = r.active_has_none ((terminal_iff t).0 active) in absurd (cc)
  ],
)

validate_evidence_iff :
    (t : VersionState) (evidence : Option PublicationEvidence)
    → (validate_evidence t evidence ≡ ok tt)
      ↔ (IsReady t → (e : PublicationEvidence) × (evidence ≡ some e) × IsPublished e)
unfolding validate_evidence
validate_evidence_iff t none = (
  λ h r. absurd (ground (arith, IsReady-ready r)),
  λ p. elim (Bool-cases (is_in t ready_states)) [
    | inl ready ↦ let (e, same, _) = p (ready_states-IsReady t ready) in absurd (cc)
    | inr other ↦ rw other
  ],
)
validate_evidence_iff t (some e) = (
  λ h r. (e, refl, (is_complete_iff e).0 (ground (arith, IsReady-ready r))),
  λ p. elim (Bool-cases (is_in t ready_states)) [
    | inl ready ↦
        let (e', same, published) = p (ready_states-IsReady t ready) in
        ground (arith, (is_complete_iff e').1 published, some-injective same)
    | inr other ↦ rw other
  ],
)

raise_if-bind-ok :
    {E A : Type 0} (b : Bool) (e : E) (m : Result E A) {a : A}
    → (raise_if b e >> m) ≡ ok a
    → (b ≡ false) × (m ≡ ok a)
raise_if-bind-ok true e m h = cc
raise_if-bind-ok false e m h = (refl, h)

check-bind-ok :
    {E A : Type 0} (c : Result E (Unit {0})) (m : Result E A) {a : A}
    → (c >> m) ≡ ok a
    → (c ≡ ok tt) × (m ≡ ok a)
check-bind-ok (ok _) m h = (refl, h)
check-bind-ok (err e) m h = cc

check-bind :
    {E A : Type 0} (c : Result E (Unit {0})) (m : Result E A) {a : A}
    → c ≡ ok tt
    → m ≡ ok a
    → (c >> m) ≡ ok a
check-bind c m hc hm = rw hc hm

ok-injective : {E A : Type 0} {a b : A} → ◌≡◌ {A = Result E A} (ok a) (ok b) → a ≡ b
ok-injective h = cc

raise_if-passes : {E : Type 0} (b : Bool) (e : E) → b ≡ false → raise_if b e ≡ ok tt
raise_if-passes b e h = rw h

transition-Accepted :
    (s : VersionSnapshot) (c : Change) (t : VersionSnapshot)
    → transition_version s c ≡ ok t
    → Accepted s c × (t ≡ after s c)
unfolding transition_version
transition-Accepted s c t h =
    let (fresh, h1) = raise_if-bind-ok _ _ _ h in
    let (progress, h2) = check-bind-ok _ _ h1 in
    let (operation, h3) = check-bind-ok _ _ h2 in
    let (reason, h4) = check-bind-ok _ _ h3 in
    let (evidence, h5) = check-bind-ok _ _ h4 in
    let (completed, total, bounds) =
      (validate_progress_iff s (next_completed s c) (next_total s c)).0 progress in
    (
      record {
        fresh = ground arith;
        completed_grows = completed;
        total_grows = total;
        progress = bounds;
        legal = (validate_operation_iff s.state c.target c.operation).0 operation;
        reasoned = (validate_terminal_reason_iff c.target c.terminal_reason_code).0 reason;
        published = (validate_evidence_iff c.target c.publication_evidence).0 evidence;
      },
      sym (ok-injective h5),
    )

transition_of_Accepted :
    (s : VersionSnapshot) (c : Change) → Accepted s c → transition_version s c ≡ ok (after s c)
unfolding transition_version
transition_of_Accepted s c a = check-bind _ _ (raise_if-passes _ _ (ground (arith, a.fresh))) (
    check-bind _ _
      ((validate_progress_iff s (next_completed s c) (next_total s c)).1
        (a.completed_grows, a.total_grows, a.progress))
      (check-bind _ _ ((validate_operation_iff s.state c.target c.operation).1 a.legal) (
        check-bind _ _ ((validate_terminal_reason_iff c.target c.terminal_reason_code).1 a.reasoned)
          (check-bind _ _ ((validate_evidence_iff c.target c.publication_evidence).1 a.published)
            refl))))

-- A transition is made exactly when it is accepted, and then gives the state after it.
pub transition_version_iff :
    (s : VersionSnapshot) (c : Change) (t : VersionSnapshot)
    → (transition_version s c ≡ ok t) ↔ (Accepted s c × (t ≡ after s c))
transition_version_iff s c t =
    (transition-Accepted s c t, λ (a, e). transition_of_Accepted s c a ∙ ap ok (sym e))
