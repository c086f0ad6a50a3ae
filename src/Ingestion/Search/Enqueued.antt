-- ===== src/Ingestion/Search/Enqueued.antt =====
-- app/services/ingestion/search_recovery.py: what `enqueue_cleanup` leaves in its table.
use text.Mathlib.TextEquality.{eq_iff}
use atlas_rag.Common.{
  ℕ, List, Option, any, ◌≡◌, same_option, Bool, Bool-cases, All, true, ◌∷◌, inl, suc, some, ==_self,
  inr, ◌∙◌, arith, refl, [], ap, none,
}
use atlas_rag.Ingestion.Search.{
  insert_cleanup, enqueue_cleanups, new_cleanup, same_target, same_attempt, same_id, is_cleanup_of,
  SearchTargetPublication,
}
use atlas_rag.Database.{Uuid, SearchCleanup, SearchTarget, Store, PublicationAttempt}

insert_cleanup-ok :
    (new : SearchCleanup) (s : Store)
    → (cleanups : List SearchCleanup) × (insert_cleanup new s ≡ record s { cleanups = cleanups })
unfolding insert_cleanup
insert_cleanup-ok new s = elim (Bool-cases (any (is_cleanup_of new) s.cleanups)) [
  | inl present ↦ (s.cleanups, rw present refl)
  | inr fresh ↦ (new ∷ s.cleanups, rw fresh refl)
]

-- Entries are enqueued in their own table.
pub enqueue_cleanups-ok :
    (ids : ℕ → Uuid) (t c v : Uuid) (ps : List SearchTargetPublication) (activation : Option Uuid)
    (now : ℕ) (s : Store)
    → (cleanups : List SearchCleanup) × (enqueue_cleanups ids t c v ps activation now s
        ≡ record s { cleanups = cleanups })
unfolding enqueue_cleanups
enqueue_cleanups-ok ids t c v [] activation now s = (s.cleanups, refl)
enqueue_cleanups-ok ids t c v (p ∷ ps) activation now s =
    let new : SearchCleanup = new_cleanup (ids 0) t c v p activation now in
    let (first, same) = insert_cleanup-ok new s in
    let (cleanups, e) =
      enqueue_cleanups-ok (λ n. ids (suc n)) t c v ps activation now (insert_cleanup new s) in
    (cleanups, e ∙ ap (λ (x : Store). record x { cleanups = cleanups }) same)

-- An entry for a publication.
unfoldable pub is_entry_of :
    (tenant_id collection_id document_version_id : Uuid)
    → (activation_version_id : Option Uuid) → SearchTargetPublication
    → SearchCleanup
    → Bool
unfolding new_cleanup
is_entry_of t c v activation p = is_cleanup_of (new_cleanup 0 t c v p activation 0)

-- Each of the publications has an entry.
abbrev pub AreEnqueued :
    (tenant_id collection_id document_version_id : Uuid)
    → (activation_version_id : Option Uuid) → List SearchTargetPublication
    → List SearchCleanup
    → Type 0
AreEnqueued t c v activation ps cleanups =
    All (λ p. any (is_entry_of t c v activation p) cleanups ≡ true) ps

same_target_refl : (a : SearchTarget) → same_target a a ≡ true
unfolding same_target
same_target_refl a = rw ((eq_iff a.name a.name).1 refl, (eq_iff a.version a.version).1 refl) refl

same_attempts_refl : (a : Option PublicationAttempt) → same_option same_attempt a a ≡ true
unfolding same_attempt
same_attempts_refl none = refl
same_attempts_refl (some a) = ground arith

same_ids_refl : (a : Option Uuid) → same_option same_id a a ≡ true
unfolding same_id
same_ids_refl none = refl
same_ids_refl (some a) = ground arith

is_entry_of_self :
    (k t c v : Uuid) (activation : Option Uuid) (p : SearchTargetPublication) (now : ℕ)
    → is_entry_of t c v activation p (new_cleanup k t c v p activation now) ≡ true
unfolding is_entry_of is_cleanup_of new_cleanup
is_entry_of_self k t c v activation p now =
    rw
      (
        ==_self t,
        ==_self c,
        ==_self v,
        same_ids_refl activation,
        same_attempts_refl p.publication,
        same_target_refl p.target,
      )
      refl

insert_cleanup-any :
    (new : SearchCleanup) (s : Store)
    → is_cleanup_of new new ≡ true
    → any (is_cleanup_of new) (insert_cleanup new s).cleanups ≡ true
unfolding insert_cleanup any
insert_cleanup-any new s self = elim (Bool-cases (any (is_cleanup_of new) s.cleanups)) [
  | inl present ↦ ground (arith, present)
  | inr fresh ↦ ground (arith, fresh, self)
]

insert_cleanup-has :
    (k t c v : Uuid) (activation : Option Uuid) (p : SearchTargetPublication) (now : ℕ) (s : Store)
    → any
        (is_entry_of t c v activation p)
        (insert_cleanup (new_cleanup k t c v p activation now) s).cleanups
      ≡ true
unfolding is_entry_of is_cleanup_of new_cleanup
insert_cleanup-has k t c v activation p now s =
    insert_cleanup-any (new_cleanup k t c v p activation now) s
      (is_entry_of_self k t c v activation p now)

insert_cleanup-keeps :
    (new : SearchCleanup) (q : SearchCleanup → Bool) (s : Store)
    → any q s.cleanups ≡ true
    → any q (insert_cleanup new s).cleanups ≡ true
unfolding insert_cleanup any
insert_cleanup-keeps new q s h = elim (Bool-cases (any (is_cleanup_of new) s.cleanups)) [
  | inl present ↦ rw present h
  | inr fresh ↦ rw fresh (ground arith)
]

enqueue_cleanups-keeps :
    (ids : ℕ → Uuid) (t c v : Uuid) (ps : List SearchTargetPublication) (activation : Option Uuid)
    (now : ℕ) (q : SearchCleanup → Bool) (s : Store)
    → any q s.cleanups ≡ true
    → any q (enqueue_cleanups ids t c v ps activation now s).cleanups ≡ true
unfolding enqueue_cleanups
enqueue_cleanups-keeps ids t c v [] activation now q s h = h
enqueue_cleanups-keeps ids t c v (p ∷ ps) activation now q s h =
    enqueue_cleanups-keeps (λ n. ids (suc n)) t c v ps activation now q _
      (insert_cleanup-keeps _ q s h)

pub enqueue_cleanups-AreEnqueued :
    (ids : ℕ → Uuid) (t c v : Uuid) (ps : List SearchTargetPublication) (activation : Option Uuid)
    (now : ℕ) (s : Store)
    → AreEnqueued t c v activation ps (enqueue_cleanups ids t c v ps activation now s).cleanups
unfolding enqueue_cleanups
enqueue_cleanups-AreEnqueued ids t c v [] activation now s = tt
enqueue_cleanups-AreEnqueued ids t c v (p ∷ ps) activation now s = (
  enqueue_cleanups-keeps (λ n. ids (suc n)) t c v ps activation now _ _
      (insert_cleanup-has (ids 0) t c v activation p now s),
  enqueue_cleanups-AreEnqueued (λ n. ids (suc n)) t c v ps activation now _,
)
