-- ===== src/Catalog/StateMachine/Edges.antt =====
-- app/services/catalog/state_machine.py: the diagram of the transitions, as a relation, and the
-- tables of the code against it.
use atlas_rag.Common.{
  ℕ, ◌<◌, ◌≡◌, ◌≢◌, refl, ◌↔◌, inl, inr, true, arith, Bool, false, not, some, ◌&&◌, ap,
}
use atlas_rag.Catalog.Enums.{
  VersionState, is_in, Among, is_in-Among, Among-is_in, is-eq, is_self, is-false, ◌is◌,
}
use atlas_rag.Catalog.StateMachine.{
  forward_transitions, Operation, terminal_states, ready_states, reprocessable_states, allowed,
}

-- How far a version has come; 9 for a version that no worker carries on.
unfoldable pub rank : VersionState → ℕ
rank VersionState.received = 0
rank VersionState.validating = 1
rank VersionState.queued = 2
rank VersionState.parsing = 3
rank VersionState.ocr = 4
rank VersionState.normalizing = 5
rank VersionState.chunking = 6
rank VersionState.embedding = 7
rank VersionState.indexing = 8
rank _ = 9

abbrev pub IsActive : VersionState → Type 0
IsActive s = rank s < 9

pub data Inspecting : VersionState → Type 0 where
  at_upload : Inspecting VersionState.validating
  at_parse : Inspecting VersionState.parsing

infix 40 ◌⟶◌
pub data ◌⟶◌ : VersionState → VersionState → Type 0 where
  validate : VersionState.received ⟶ VersionState.validating
  enqueue : VersionState.validating ⟶ VersionState.queued
  parse : VersionState.queued ⟶ VersionState.parsing
  recognize : VersionState.parsing ⟶ VersionState.ocr
  extract : VersionState.parsing ⟶ VersionState.normalizing
  merge : VersionState.ocr ⟶ VersionState.normalizing
  chunk : VersionState.normalizing ⟶ VersionState.chunking
  embed : VersionState.chunking ⟶ VersionState.embedding
  index : VersionState.embedding ⟶ VersionState.indexing
  publish : VersionState.indexing ⟶ VersionState.ready
  publish_with_warnings : VersionState.indexing ⟶ VersionState.ready_with_warnings
  deduplicate : VersionState.validating ⟶ VersionState.deduplicated
  discard : VersionState.received ⟶ VersionState.deleted
  reject : {s : VersionState} → Inspecting s → s ⟶ VersionState.rejected
  quarantine : {s : VersionState} → Inspecting s → s ⟶ VersionState.quarantined
  abandon : {s : VersionState} → IsActive s → s ⟶ VersionState.cancelled
  give_up : {s : VersionState} → IsActive s → s ≢ VersionState.received → s ⟶ VersionState.failed

edge_of_Among : (s t : VersionState) → Among t (forward_transitions s) → s ⟶ t
unfolding rank
edge_of_Among VersionState.received t (inl e) = rw e validate
edge_of_Among VersionState.received t (inr (inl e)) = rw e (abandon (omega arith))
edge_of_Among VersionState.received t (inr (inr (inl e))) = rw e discard
edge_of_Among VersionState.validating t (inl e) = rw e enqueue
edge_of_Among VersionState.validating t (inr (inl e)) = rw e deduplicate
edge_of_Among VersionState.validating t (inr (inr (inl e))) = rw e (reject at_upload)
edge_of_Among VersionState.validating t (inr (inr (inr (inl e)))) =
    rw e (give_up (omega arith) (λ p. cc))
edge_of_Among VersionState.validating t (inr (inr (inr (inr (inl e))))) =
    rw e (quarantine at_upload)
edge_of_Among VersionState.validating t (inr (inr (inr (inr (inr (inl e)))))) =
    rw e (abandon (omega arith))
edge_of_Among VersionState.queued t (inl e) = rw e parse
edge_of_Among VersionState.queued t (inr (inl e)) = rw e (abandon (omega arith))
edge_of_Among VersionState.queued t (inr (inr (inl e))) = rw e (give_up (omega arith) (λ p. cc))
edge_of_Among VersionState.parsing t (inl e) = rw e recognize
edge_of_Among VersionState.parsing t (inr (inl e)) = rw e extract
edge_of_Among VersionState.parsing t (inr (inr (inl e))) = rw e (reject at_parse)
edge_of_Among VersionState.parsing t (inr (inr (inr (inl e)))) =
    rw e (give_up (omega arith) (λ p. cc))
edge_of_Among VersionState.parsing t (inr (inr (inr (inr (inl e))))) = rw e (quarantine at_parse)
edge_of_Among VersionState.parsing t (inr (inr (inr (inr (inr (inl e)))))) =
    rw e (abandon (omega arith))
edge_of_Among VersionState.ocr t (inl e) = rw e merge
edge_of_Among VersionState.ocr t (inr (inl e)) = rw e (give_up (omega arith) (λ p. cc))
edge_of_Among VersionState.ocr t (inr (inr (inl e))) = rw e (abandon (omega arith))
edge_of_Among VersionState.normalizing t (inl e) = rw e chunk
edge_of_Among VersionState.normalizing t (inr (inl e)) = rw e (give_up (omega arith) (λ p. cc))
edge_of_Among VersionState.normalizing t (inr (inr (inl e))) = rw e (abandon (omega arith))
edge_of_Among VersionState.chunking t (inl e) = rw e embed
edge_of_Among VersionState.chunking t (inr (inl e)) = rw e (give_up (omega arith) (λ p. cc))
edge_of_Among VersionState.chunking t (inr (inr (inl e))) = rw e (abandon (omega arith))
edge_of_Among VersionState.embedding t (inl e) = rw e index
edge_of_Among VersionState.embedding t (inr (inl e)) = rw e (give_up (omega arith) (λ p. cc))
edge_of_Among VersionState.embedding t (inr (inr (inl e))) = rw e (abandon (omega arith))
edge_of_Among VersionState.indexing t (inl e) = rw e publish
edge_of_Among VersionState.indexing t (inr (inl e)) = rw e publish_with_warnings
edge_of_Among VersionState.indexing t (inr (inr (inl e))) = rw e (give_up (omega arith) (λ p. cc))
edge_of_Among VersionState.indexing t (inr (inr (inr (inl e)))) = rw e (abandon (omega arith))
edge_of_Among VersionState.received t (inr (inr (inr none_left))) = elim none_left [ ]
edge_of_Among VersionState.validating t (inr (inr (inr (inr (inr (inr none_left)))))) =
    elim none_left [ ]
edge_of_Among VersionState.queued t (inr (inr (inr none_left))) = elim none_left [ ]
edge_of_Among VersionState.parsing t (inr (inr (inr (inr (inr (inr none_left)))))) =
    elim none_left [ ]
edge_of_Among VersionState.ocr t (inr (inr (inr none_left))) = elim none_left [ ]
edge_of_Among VersionState.normalizing t (inr (inr (inr none_left))) = elim none_left [ ]
edge_of_Among VersionState.chunking t (inr (inr (inr none_left))) = elim none_left [ ]
edge_of_Among VersionState.embedding t (inr (inr (inr none_left))) = elim none_left [ ]
edge_of_Among VersionState.indexing t (inr (inr (inr (inr none_left)))) = elim none_left [ ]
edge_of_Among VersionState.ready t none_left = elim none_left [ ]
edge_of_Among VersionState.ready_with_warnings t none_left = elim none_left [ ]
edge_of_Among VersionState.deduplicated t none_left = elim none_left [ ]
edge_of_Among VersionState.rejected t none_left = elim none_left [ ]
edge_of_Among VersionState.failed t none_left = elim none_left [ ]
edge_of_Among VersionState.quarantined t none_left = elim none_left [ ]
edge_of_Among VersionState.superseded t none_left = elim none_left [ ]
edge_of_Among VersionState.cancelled t none_left = elim none_left [ ]
edge_of_Among VersionState.deleted t none_left = elim none_left [ ]

abandon_listed :
    (s : VersionState) → IsActive s → Among VersionState.cancelled (forward_transitions s)
unfolding rank
abandon_listed VersionState.received h = search (inl, inr) depth 9
abandon_listed VersionState.validating h = search (inl, inr) depth 9
abandon_listed VersionState.queued h = search (inl, inr)
abandon_listed VersionState.parsing h = search (inl, inr) depth 9
abandon_listed VersionState.ocr h = search (inl, inr)
abandon_listed VersionState.normalizing h = search (inl, inr)
abandon_listed VersionState.chunking h = search (inl, inr)
abandon_listed VersionState.embedding h = search (inl, inr)
abandon_listed VersionState.indexing h = search (inl, inr) depth 9
abandon_listed _ h = absurd (omega arith)

give_up_listed :
    (s : VersionState)
    → IsActive s
    → s ≢ VersionState.received
    → Among VersionState.failed (forward_transitions s)
unfolding rank
give_up_listed VersionState.received h n = absurd (n refl)
give_up_listed VersionState.validating h n = search (inl, inr) depth 9
give_up_listed VersionState.queued h n = search (inl, inr)
give_up_listed VersionState.parsing h n = search (inl, inr) depth 9
give_up_listed VersionState.ocr h n = search (inl, inr)
give_up_listed VersionState.normalizing h n = search (inl, inr)
give_up_listed VersionState.chunking h n = search (inl, inr)
give_up_listed VersionState.embedding h n = search (inl, inr)
give_up_listed VersionState.indexing h n = search (inl, inr) depth 9
give_up_listed _ h n = absurd (omega arith)

Among-of_edge : {s t : VersionState} → s ⟶ t → Among t (forward_transitions s)
Among-of_edge (reject at_upload) = search (inl, inr) depth 9
Among-of_edge (reject at_parse) = search (inl, inr) depth 9
Among-of_edge (quarantine at_upload) = search (inl, inr) depth 9
Among-of_edge (quarantine at_parse) = search (inl, inr) depth 9
Among-of_edge (abandon {s} h) = abandon_listed s h
Among-of_edge (give_up {s} h n) = give_up_listed s h n
Among-of_edge _ = search (inl, inr) depth 9

pub forward-edge_iff : (s t : VersionState) → (is_in t (forward_transitions s) ≡ true) ↔ (s ⟶ t)
forward-edge_iff s t = (
  λ h. edge_of_Among s t (is_in-Among t (forward_transitions s) h),
  λ e. Among-is_in t (forward_transitions s) (Among-of_edge e),
)

pub data IsReady : VersionState → Type 0 where
  clean : IsReady VersionState.ready
  with_warnings : IsReady VersionState.ready_with_warnings

-- Which operation may take a version from one state to another.
pub data Legal : Operation → VersionState → VersionState → Type 0 where
  advances : {s t : VersionState} → s ⟶ t → Legal Operation.advance s t
  deletes :
      {s : VersionState} → s ≢ VersionState.deleted → Legal Operation.delete s VersionState.deleted
  supersedes : {s : VersionState} → IsReady s → Legal Operation.supersede s VersionState.superseded
  reprocesses : {s : VersionState} → IsReady s → Legal Operation.reprocess s VersionState.queued
  reprocesses_failed : Legal Operation.reprocess VersionState.failed VersionState.queued
  reprocesses_cancelled : Legal Operation.reprocess VersionState.cancelled VersionState.queued
  cancels : {s : VersionState} → IsActive s → Legal Operation.cancel s VersionState.cancelled
  retries : Legal Operation.retry VersionState.failed VersionState.queued
  reconciles : {s : VersionState} → IsReady s → Legal Operation.reconcile s VersionState.failed

pub terminal_iff : (s : VersionState) → (is_in s terminal_states ≡ false) ↔ IsActive s
unfolding rank is_in
terminal_iff VersionState.received = ground arith
terminal_iff _ = ground arith

pub ready_states-IsReady : (s : VersionState) → is_in s ready_states ≡ true → IsReady s
unfolding is_in
ready_states-IsReady VersionState.ready h = clean
ready_states-IsReady VersionState.ready_with_warnings h = with_warnings
ready_states-IsReady _ h = cc

pub IsReady-ready : {s : VersionState} → IsReady s → is_in s ready_states ≡ true
unfolding is_in
IsReady-ready clean = refl
IsReady-ready with_warnings = refl

reprocessable-Legal :
    (s : VersionState)
    → is_in s reprocessable_states ≡ true
    → Legal Operation.reprocess s VersionState.queued
unfolding is_in
reprocessable-Legal VersionState.ready h = reprocesses clean
reprocessable-Legal VersionState.ready_with_warnings h = reprocesses with_warnings
reprocessable-Legal VersionState.failed h = reprocesses_failed
reprocessable-Legal VersionState.cancelled h = reprocesses_cancelled
reprocessable-Legal _ h = cc

is_not : (b : Bool) → b ≡ false → b ≡ true → ⊥
is_not b p q = cc

IsReady-reprocessable : {s : VersionState} → IsReady s → is_in s reprocessable_states ≡ true
unfolding is_in
IsReady-reprocessable clean = refl
IsReady-reprocessable with_warnings = refl

and-eq-true : (a b : Bool) → some (a && b) ≡ some true → (a ≡ true) × (b ≡ true)
and-eq-true true b h = (refl, cc)
and-eq-true false b h = cc

not-eq-true : (b : Bool) → not b ≡ true → b ≡ false
not-eq-true true h = cc
not-eq-true false h = refl

deletes_of_test :
    (s : VersionState)
    → (s is VersionState.deleted) ≡ false
    → Legal Operation.delete s VersionState.deleted
deletes_of_test s h =
    deletes (λ e. is_not (s is VersionState.deleted) h (rw e (is_self VersionState.deleted)))

-- What the branch `allowed` of an operation found true is an edge of that operation.
pub allowed-Legal :
    (operation : Operation) (s t : VersionState)
    → allowed operation s t ≡ some true
    → Legal operation s t
unfolding allowed
allowed-Legal Operation.delete s t h =
    let (not_deleted, to_deleted) = and-eq-true _ _ h in
    rw (is-eq t VersionState.deleted to_deleted) (deletes_of_test s (not-eq-true _ not_deleted))
allowed-Legal Operation.supersede s t h =
    let (from_ready, to) = and-eq-true _ _ h in
    rw (is-eq t VersionState.superseded to) (supersedes (ready_states-IsReady s from_ready))
allowed-Legal Operation.reprocess s t h =
    let (from, to) = and-eq-true _ _ h in
    rw (is-eq t VersionState.queued to) (reprocessable-Legal s from)
allowed-Legal Operation.cancel s t h =
    let (from, to) = and-eq-true _ _ h in
    rw (is-eq t VersionState.cancelled to) (cancels ((terminal_iff s).0 (not-eq-true _ from)))
allowed-Legal Operation.retry s t h =
    let (from, to) = and-eq-true _ _ h in
    rw (is-eq s VersionState.failed from, is-eq t VersionState.queued to) retries
allowed-Legal Operation.reconcile s t h =
    let (from, to) = and-eq-true _ _ h in
    rw (is-eq t VersionState.failed to) (reconciles (ready_states-IsReady s from))
allowed-Legal Operation.advance s t h = advances ((forward-edge_iff s t).0 (cc))
allowed-Legal (Operation.other name) s t h = cc

-- Each edge of an operation passes its test.
pub Legal-allowed :
    {operation : Operation} {s t : VersionState}
    → Legal operation s t
    → allowed operation s t ≡ some true
unfolding allowed
Legal-allowed (advances {s} {t} e) = ap some ((forward-edge_iff s t).1 e)
Legal-allowed (deletes {s} n) = rw (is-false s _ n, is_self VersionState.deleted)
Legal-allowed (supersedes r) = rw (IsReady-ready r, is_self VersionState.superseded)
Legal-allowed (reprocesses r) = rw (IsReady-reprocessable r, is_self VersionState.queued)
Legal-allowed reprocesses_failed = unfold is_in ◌is◌ in refl
Legal-allowed reprocesses_cancelled = unfold is_in ◌is◌ in refl
Legal-allowed (cancels {s} h) = rw ((terminal_iff s).1 h, is_self VersionState.cancelled)
Legal-allowed retries = unfold ◌is◌ in refl
Legal-allowed (reconciles r) = rw (IsReady-ready r, is_self VersionState.failed)
