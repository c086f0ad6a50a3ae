-- ===== src/Catalog/StateMachine/Lifecycle.antt =====
-- app/services/catalog/state_machine.py: what holds of every history of a version.
use atlas_rag.Common.{
  ℕ, ◌≡◌, ◌<◌, ◌≢◌, ◌⊎◌, ◌+◌, arith, suc, ap, inr, inl, Bool-cases, ◌∙◌, refl, ◌==◌, ==_iff,
}
use atlas_rag.Catalog.StateMachine.{VersionSnapshot, Change, transition_version, Operation, stale}
use atlas_rag.Catalog.StateMachine.Edges.{
  at_upload, at_parse, clean, with_warnings, reprocesses_failed, reprocesses_cancelled, retries,
  ◌⟶◌, Legal, rank, IsActive, IsReady, advances, reject, abandon, quarantine, deletes, give_up,
  supersedes, cancels, reprocesses, reconciles,
}
use atlas_rag.Catalog.StateMachine.Accepted.{
  IsProgress, IsReasoned, Accepted, after, transition_version_iff,
}
use atlas_rag.Catalog.Enums.{VersionState}
use atlas_rag.Common.Int.{ℤ, ◌≤ℤ◌}
use atlas_rag.Common.Result.{ok, err}

-- A forward edge goes up in rank, so the pipeline has no loop.
pub edge-rank_lt : {s t : VersionState} → s ⟶ t → rank s < rank t
unfolding rank
edge-rank_lt (reject at_upload) = omega arith
edge-rank_lt (reject at_parse) = omega arith
edge-rank_lt (quarantine at_upload) = omega arith
edge-rank_lt (quarantine at_parse) = omega arith
edge-rank_lt (abandon h) = h
edge-rank_lt (give_up h n) = h
edge-rank_lt _ = omega arith

ready_rank : {s : VersionState} → IsReady s → rank s ≡ 9
unfolding rank
ready_rank clean = refl
ready_rank with_warnings = refl

-- Every operation moves a version to another state.
pub Legal-ne : {operation : Operation} {s t : VersionState} → Legal operation s t → s ≢ t
unfolding rank
Legal-ne (advances e) = λ same. absurd (omega (arith, edge-rank_lt e, ap rank same))
Legal-ne (deletes n) = n
Legal-ne (supersedes clean) = λ e. cc
Legal-ne (supersedes with_warnings) = λ e. cc
Legal-ne (reprocesses r) = λ e. absurd (omega (arith, ready_rank r, ap rank e))
Legal-ne (cancels h) = λ e. absurd (omega (arith, h, ap rank e))
Legal-ne (reconciles clean) = λ e. cc
Legal-ne (reconciles with_warnings) = λ e. cc
Legal-ne _ = λ e. cc

deleted_ends :
    {operation : Operation} {t : VersionState} → Legal operation VersionState.deleted t → ⊥
unfolding rank
deleted_ends (advances (abandon h)) = omega arith
deleted_ends (advances (give_up h n)) = omega arith
deleted_ends (advances (reject h)) = elim h [ ]
deleted_ends (advances (quarantine h)) = elim h [ ]
deleted_ends (supersedes h) = elim h [ ]
deleted_ends (reprocesses h) = elim h [ ]
deleted_ends (reconciles h) = elim h [ ]
deleted_ends (deletes n) = n refl
deleted_ends (cancels h) = omega arith

-- Which operations a version at rest can be taken back to work by.
resumes :
    {operation : Operation} {s t : VersionState}
    → Legal operation s t
    → ¬ IsActive s
    → IsActive t
    → (operation ≡ Operation.retry) ⊎ (operation ≡ Operation.reprocess)
unfolding rank
resumes (advances e) rest active = absurd (omega (arith, edge-rank_lt e))
resumes (deletes n) rest active = absurd (omega arith)
resumes (supersedes r) rest active = absurd (omega arith)
resumes (reprocesses r) rest active = inr refl
resumes reprocesses_failed rest active = inr refl
resumes reprocesses_cancelled rest active = inr refl
resumes (cancels h) rest active = absurd (rest h)
resumes retries rest active = inl refl
resumes (reconciles r) rest active = absurd (omega arith)

-- A history: the changes that were made, one after another.
pub data History (s : VersionSnapshot) : ℕ → VersionSnapshot → Type 0 where
  start : History s 0 s
  made :
      {n : ℕ} {t u : VersionSnapshot}
      → History s n t
      → (c : Change) → transition_version t c ≡ ok u
      → History s (suc n) u

-- What the check constraints of the table ask of a row, as far as they speak of these fields.
pub record IsConsistent (s : VersionSnapshot) : Type 0 where
  pub progress : IsProgress s.progress_completed s.progress_total
  pub reasoned : IsReasoned s.state s.terminal_reason_code

transition_version-Accepted :
    (s : VersionSnapshot) (c : Change) (t : VersionSnapshot)
    → transition_version s c ≡ ok t
    → Accepted s c × (t ≡ after s c)
transition_version-Accepted s c t = (transition_version_iff s c t).0

≤ℤ_trans : (a b c : ℤ) → a ≤ℤ b → b ≤ℤ c → a ≤ℤ c
≤ℤ_trans a b c h k = omega arith

-- After n changes of a consistent version the version is consistent, its revision is n higher and
-- neither progress number is lower.
pub History-keeps :
    {s t : VersionSnapshot} {n : ℕ}
    → IsConsistent s
    → History s n t
    → IsConsistent t
      × (t.revision ≡ s.revision + n)
      × (s.progress_completed ≤ℤ t.progress_completed)
      × (s.progress_total ≤ℤ t.progress_total)
History-keeps h start = (h, omega arith, omega arith, omega arith)
History-keeps {s} {t = u} h (made {n} {t} before c step) =
    let (consistent, count, completed, total) = History-keeps h before in
    let (a, e) = transition_version-Accepted t c u step in
    rw e (
      record { progress = a.progress; reasoned = a.reasoned },
      omega arith,
      ≤ℤ_trans s.progress_completed t.progress_completed _ completed a.completed_grows,
      ≤ℤ_trans s.progress_total t.progress_total _ total a.total_grows,
    )

transition_version_stale :
    (t : VersionSnapshot) (d : Change)
    → t.revision ≢ d.expected_revision
    → transition_version t d ≡ err (stale d.expected_revision t.revision)
unfolding transition_version
transition_version_stale t d n = elim (Bool-cases (t.revision == d.expected_revision)) [
  | inl same ↦ absurd (n ((==_iff _ _).0 same))
  | inr other ↦ rw other
]

-- Two workers that read the same revision cannot both change the version: after the first change
-- every other change that expects the old revision is stale.
pub transition_version_fences :
    (s t : VersionSnapshot) (c d : Change)
    → transition_version s c ≡ ok t
    → d.expected_revision ≡ s.revision
    → transition_version t d ≡ err (stale s.revision (s.revision + 1))
transition_version_fences s t c d h e =
    let (a, same) = transition_version-Accepted s c t h in
    transition_version_stale t d (ground (arith, ap (λ (x : VersionSnapshot). x.revision) same))
    ∙ cc (e, ap (λ (x : VersionSnapshot). x.revision) same)

transition_version-Legal :
    (s : VersionSnapshot) (c : Change) (t : VersionSnapshot)
    → transition_version s c ≡ ok t
    → Legal c.operation s.state c.target
transition_version-Legal s c t e = (transition_version-Accepted s c t e).0.legal

-- A deleted version is never changed again.
pub deleted_is_final :
    (s t : VersionSnapshot) (c : Change)
    → s.state ≡ VersionState.deleted
    → transition_version s c ≢ ok t
deleted_is_final s t c h e = deleted_ends (rw h at (transition_version-Legal s c t e))

-- A version at rest goes back to work by a retry or a reprocessing only.
pub resumes_by_request :
    (s t : VersionSnapshot) (c : Change)
    → transition_version s c ≡ ok t
    → ¬ IsActive s.state
    → IsActive t.state
    → (c.operation ≡ Operation.retry) ⊎ (c.operation ≡ Operation.reprocess)
resumes_by_request s t c e rest active =
    let (a, same) = transition_version-Accepted s c t e in
    resumes a.legal rest (let at = ap (λ (x : VersionSnapshot). x.state) same in rw at at active)
