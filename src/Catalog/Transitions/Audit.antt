-- ===== src/Catalog/Transitions/Audit.antt =====
-- app/services/catalog/operation_transitions.py: the events of a version as its trail.
use native.Mathlib.Decide.{ℕ_discrete}
use atlas_rag.Common.{
  ℕ, suc, update_where, List, [], ◌≡◌, ◌==◌, find, All, arith, ◌∷◌, some, ◌≢◌, ◌≤◌, if◌then◌else◌,
  none, refl, any, false, Bool-cases, ==_self, sym, inl, ◌∙◌, inr, ap, Option,
}
use atlas_rag.Database.{Store, TransitionEvent, DocumentVersion, Uuid}
use atlas_rag.Catalog.Versions.{find_version}
use atlas_rag.Catalog.StateMachine.{Operation}
use atlas_rag.Catalog.Enums.{VersionState}
use atlas_rag.Catalog.StateMachine.Edges.{Legal}
use atlas_rag.Catalog.Transitions.{revision_taken}

-- The events of a version, newest first.
unfoldable pub trail_of : Uuid → List TransitionEvent → List TransitionEvent
trail_of k [] = []
trail_of k (e ∷ events) =
    let rest = trail_of k events in if e.document_version_id == k then e ∷ rest else rest

-- The events that lead a version to a revision and a state: it was registered, or made by a
-- reprocessing, and each later event records one legal step from where the one before it ended.
pub data Trail : ℕ → VersionState → List TransitionEvent → Type 0 where
  registered : Trail 0 VersionState.received []
  reprocessed :
      (e : TransitionEvent)
      → e.from_revision ≡ 0
      → e.to_revision ≡ 1
      → e.to_state ≡ VersionState.chunking
      → e.operation ≡ Operation.reprocess
      → Trail 1 VersionState.chunking (e ∷ [])
  step :
      {n : ℕ} {s t : VersionState} {events : List TransitionEvent}
      → Trail n s events
      → (e : TransitionEvent) → e.from_state ≡ s
      → e.from_revision ≡ n
      → e.to_state ≡ t
      → e.to_revision ≡ suc n
      → Legal e.operation s t
      → Trail (suc n) t (e ∷ events)

pub record IsAudited (s : Store) : Type 0 where
  pub trail :
      (k : Uuid) (v : DocumentVersion)
      → find_version k s.versions ≡ some v
      → Trail v.state_revision v.state (trail_of k s.events)
  pub no_orphan : (k : Uuid) → find_version k s.versions ≡ none → trail_of k s.events ≡ []

pub find_version-id :
    (k : Uuid) (versions : List DocumentVersion) (v : DocumentVersion)
    → find_version k versions ≡ some v
    → v.id ≡ k
unfolding find_version find
find_version-id k [] v h = cc
find_version-id k (x ∷ versions) v h = ground (arith, find_version-id k versions v)

abbrev replace : Uuid → DocumentVersion → List DocumentVersion → List DocumentVersion
replace k new = update_where (λ v. v.id == k) (λ _. new)

pub find-replace_self :
    (k : Uuid) (new : DocumentVersion) (versions : List DocumentVersion) (v : DocumentVersion)
    → new.id ≡ k
    → find_version k versions ≡ some v
    → find_version k (replace k new versions) ≡ some new
unfolding find_version update_where find
find-replace_self k new [] v e h = cc
find-replace_self k new (x ∷ versions) v e h = ground (arith, find-replace_self k new versions v e)

pub find-replace_ne :
    (j k : Uuid) (new : DocumentVersion) (versions : List DocumentVersion)
    → new.id ≡ k
    → j ≢ k
    → find_version j (replace k new versions) ≡ find_version j versions
unfolding find_version update_where find
find-replace_ne j k new [] e n = refl
find-replace_ne j k new (x ∷ versions) e n = ground (arith, find-replace_ne j k new versions e n)

-- Every event of a trail stands at most at its end.
abbrev pub UpTo : ℕ → List TransitionEvent → Type 0
UpTo n = All (λ e. e.to_revision ≤ n)

UpTo-suc : (n : ℕ) (events : List TransitionEvent) → UpTo n events → UpTo (suc n) events
UpTo-suc n [] h = tt
UpTo-suc n (e ∷ events) h = (omega arith, UpTo-suc n events h.1)

pub Trail-UpTo :
    {n : ℕ} {s : VersionState} {events : List TransitionEvent} → Trail n s events → UpTo n events
Trail-UpTo registered = tt
Trail-UpTo (reprocessed e a b c d) = (omega arith, tt)
Trail-UpTo (step {n} {events} before e a b c d l) =
    (omega arith, UpTo-suc n events (Trail-UpTo before))

-- A revision beyond the end of a trail is not taken.
pub not_recorded :
    (new : TransitionEvent) (events : List TransitionEvent)
    → UpTo new.from_revision (trail_of new.document_version_id events)
    → new.to_revision ≡ suc new.from_revision
    → revision_taken new events ≡ false
unfolding revision_taken any trail_of
not_recorded new [] h n = refl
not_recorded new (e ∷ events) h n =
    elim (Bool-cases (e.document_version_id == new.document_version_id)) [
      | inl same ↦
          let both : (e.to_revision ≤ new.from_revision)
              × UpTo new.from_revision (trail_of new.document_version_id events) =
            rw same at h in
          ground (arith, not_recorded new events both.1)
      | inr other ↦
          let rest : UpTo new.from_revision (trail_of new.document_version_id events) =
            rw other at h in
          ground (arith, not_recorded new events rest)
    ]

pub trail_of_self :
    (k : Uuid) (e : TransitionEvent) (events : List TransitionEvent)
    → e.document_version_id ≡ k
    → trail_of k (e ∷ events) ≡ e ∷ trail_of k events
unfolding trail_of
trail_of_self k e events h = rw (h, ==_self k)

pub trail_of_ne :
    (k : Uuid) (e : TransitionEvent) (events : List TransitionEvent)
    → e.document_version_id ≢ k
    → trail_of k (e ∷ events) ≡ trail_of k events
unfolding trail_of
trail_of_ne k e events h = ground arith

pub some-eq : {A : Type 0} {a b : A} → ◌≡◌ {A = Option A} (some a) (some b) → a ≡ b
some-eq h = cc

-- What one recorded move of a version consists of.
pub record IsMove (k : Uuid) (old new : DocumentVersion) (e : TransitionEvent) : Type 0 where
  pub same_id : new.id ≡ k
  pub next_revision : new.state_revision ≡ suc old.state_revision
  pub about : e.document_version_id ≡ k
  pub from_state : e.from_state ≡ old.state
  pub from_revision : e.from_revision ≡ old.state_revision
  pub to_state : e.to_state ≡ new.state
  pub to_revision : e.to_revision ≡ suc old.state_revision
  pub legal : Legal e.operation old.state new.state

abbrev pub recorded_move : Uuid → DocumentVersion → TransitionEvent → Store → Store
recorded_move k new e s = record s { versions = replace k new s.versions; events = e ∷ s.events }

module _ (s : Store) (k : Uuid) (old new : DocumentVersion) (e : TransitionEvent)
    (audited : IsAudited s) (found : find_version k s.versions ≡ some old)
    (move : IsMove k old new e) where
  step-Trail : Trail new.state_revision new.state (trail_of k (e ∷ s.events))
  step-Trail =
      rw (trail_of_self k e s.events move.about, move.next_revision)
        (step (audited.trail k old found) e move.from_state move.from_revision move.to_state
          move.to_revision move.legal)

  replace-Trail :
      (j : Uuid) (v : DocumentVersion)
      → find_version j (replace k new s.versions) ≡ some v
      → Trail v.state_revision v.state (trail_of j (e ∷ s.events))
  replace-Trail j v h = elim (ℕ_discrete j k) [
    | yes same ↦
        let is_new : new ≡ v = some-eq (
          sym (find-replace_self k new s.versions old move.same_id found)
          ∙ sym (ap (λ i. find_version i (replace k new s.versions)) same)
          ∙ h) in
        rw (same, ← is_new) step-Trail
    | no other ↦
        rw (trail_of_ne j e s.events (λ p. other (sym p ∙ move.about)))
          (audited.trail j v (sym (find-replace_ne j k new s.versions move.same_id other) ∙ h))
  ]

  orphan_after :
      (j : Uuid) → find_version j (replace k new s.versions) ≡ none → trail_of j (e ∷ s.events) ≡ []
  orphan_after j h = elim (ℕ_discrete j k) [
    | yes same ↦
        let found_new = find-replace_self k new s.versions old move.same_id found in
        let missing = rw same at h in absurd (cc)
    | no other ↦
        trail_of_ne j e s.events (λ p. other (sym p ∙ move.about))
        ∙ audited.no_orphan j (sym (find-replace_ne j k new s.versions move.same_id other) ∙ h)
  ]

  pub recorded_move-IsAudited : IsAudited (recorded_move k new e s)
  recorded_move-IsAudited = record { trail = replace-Trail; no_orphan = orphan_after }
