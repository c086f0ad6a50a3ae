-- ===== src/Ingestion/Search/Fence.antt =====
-- app/services/ingestion/search_recovery.py: what a lease on an entry keeps others from.
use mathlib.Core.Path.{subst}
use atlas_rag.Common.{
  ℕ, update_where, List, Option, String, ◌≢◌, All, ◌≡◌, false, ◌∷◌, ap, sym, some, ◌==◌,
  Option-cases, [], ◌∙◌, ◌≤◌, true, Bool-cases, ◌<◌, Bool, inl, leb, ◌+◌, ltb, inr, ◌&&◌, arith,
  refl,
}
use atlas_rag.Ingestion.Search.{
  update_cleanup, complete_cleanup, claim_cleanup, exhaust_cleanup, leased_cleanup, cleanup_claim,
  retry_cleanup, is_candidate, exhausted_cleanup, SearchCleanupClaim, is_open_cleanup, oldest,
  is_over,
}
use atlas_rag.Database.{SearchCleanup, Uuid, Store}
use atlas_rag.Ingestion.Search.Leased.{
  IsLeased, IsKeyed, leased_rows, claim_cleanup-IsLeased, owned_by_none, oldest-All,
  update_where-none,
}
use atlas_rag.Common.Result.{ok}

-- The rows of the entry after the claim are the row that is leased.
leased_after :
    (worker_id : String) (now d n : ℕ) (c : SearchCleanupClaim) (s s' : Store)
    (r : IsLeased worker_id now d n c s s')
    → All (λ x. x.id ≡ c.id → x ≡ leased_cleanup worker_id now d r.entry) s'.cleanups
unfolding update_cleanup cleanup_claim leased_cleanup
leased_after worker_id now d n c s s' r =
    let id : c.id ≡ r.entry.id = ap (λ (x : SearchCleanupClaim). x.id) r.is_claim in
    subst (λ k. All (λ x. x.id ≡ k → x ≡ leased_cleanup worker_id now d r.entry) s'.cleanups)
      (sym id)
      (subst
        (λ (t : Store).
          All (λ x. x.id ≡ r.entry.id → x ≡ leased_cleanup worker_id now d r.entry) t.cleanups)
        (sym r.stored) (leased_rows worker_id now d r.entry r.before.cleanups r.only))

all_apart :
    (k n : ℕ) (leased : SearchCleanup) (entries : List SearchCleanup)
    → leased.attempt_count ≢ n
    → All (λ x. x.id ≡ k → x ≡ leased) entries
    → All (λ x. x.id ≡ k → x.attempt_count ≢ n) entries
all_apart k n leased [] differs h = tt
all_apart k n leased (x ∷ entries) differs h = (
  (λ same count. differs (sym (ap (λ (e : SearchCleanup). e.attempt_count) (h.0 same)) ∙ count)),
  all_apart k n leased entries differs h.1,
)

-- A granted claim of an entry counts as an attempt, never one too many, and fences the entry: in
-- the store that it leaves, neither the completion nor the retry of a claim of another attempt of
-- the entry, by whatever worker and at whatever time, changes anything. The ids of the entries are
-- taken to differ.
pub claim_cleanup_fences :
    (worker_id : String) (now d n : ℕ) (activation version : Option Uuid) (s s' : Store)
    (c c' : SearchCleanupClaim) (worker_id' : String) (now' n' : ℕ) (reason : String)
    → IsKeyed s.cleanups
    → claim_cleanup worker_id now d n activation version s ≡ ok (some c, s')
    → c'.id ≡ c.id
    → c'.attempt_number ≢ c.attempt_number
    → (c.attempt_number ≤ n)
      × (complete_cleanup c' worker_id' now' s' ≡ s')
      × (retry_cleanup c' worker_id' n' reason now' s' ≡ s')
unfolding complete_cleanup retry_cleanup cleanup_claim leased_cleanup
claim_cleanup_fences worker_id now d n activation version s s' c c' worker_id' now' n' reason keyed
      h same other =
    let r = claim_cleanup-IsLeased worker_id now d n activation version s s' c keyed h in
    let count : c.attempt_number ≡ r.entry.attempt_count + 1 =
      ap (λ (x : SearchCleanupClaim). x.attempt_number) r.is_claim in
    let rows : All (λ x. x.id ≡ c'.id → x ≡ leased_cleanup worker_id now d r.entry) s'.cleanups =
      subst (λ k. All (λ x. x.id ≡ k → x ≡ leased_cleanup worker_id now d r.entry) s'.cleanups)
        (sym same) (leased_after worker_id now d n c s s' r) in
    let none_owned = owned_by_none worker_id' c' s'.cleanups (
      all_apart c'.id c'.attempt_number (leased_cleanup worker_id now d r.entry) s'.cleanups
        (λ e. other (sym e ∙ sym count)) rows) in
    let left = r.left in
    (
      ground arith,
      ap (λ entries. record s' { cleanups = entries }) (update_where-none _ _ _ none_owned),
      ap (λ entries. record s' { cleanups = entries }) (update_where-none _ _ _ none_owned),
    )

-- The row that a claim takes, with a property that every row has when it looks.
claim_cleanup-found :
    (P : SearchCleanup → Type 0) (worker_id : String) (now d n : ℕ)
    (activation version : Option Uuid) (s s' : Store) (c : SearchCleanupClaim)
    → All P (exhaust_cleanup now n activation version s).cleanups
    → claim_cleanup worker_id now d n activation version s ≡ ok (some c, s')
    → (e : SearchCleanup) × P e
      × (is_open_cleanup now e.state e.lease_expires_at ≡ true)
      × (e.id ≡ c.id)
unfolding claim_cleanup is_candidate cleanup_claim leased_cleanup
claim_cleanup-found P worker_id now d n activation version s s' c every h =
    let s1 : Store = exhaust_cleanup now n activation version s in
    let p : SearchCleanup → Bool =
      λ e. ltb e.attempt_count n && is_candidate now activation version e in
    elim (Option-cases (oldest p s1.cleanups)) [
      | inl nothing ↦ let never = rw nothing at h in absurd (cc)
      | inr (e, found) ↦
          let leased = rw found at h in
          let (of_row, fits) = oldest-All P p s1.cleanups e found every in
          let given : cleanup_claim (leased_cleanup worker_id now d e) ≡ c = cc in
          (e, of_row, ground arith, ap (λ (x : SearchCleanupClaim). x.id) given)
    ]

update_shut :
    (k now i : ℕ) (entries : List SearchCleanup)
    → All (λ x. x.id ≡ k → is_open_cleanup now x.state x.lease_expires_at ≡ false) entries
    → All
        (λ x. x.id ≡ k → is_open_cleanup now x.state x.lease_expires_at ≡ false)
        (update_where (λ x. x.id == i) (exhausted_cleanup now) entries)
unfolding update_where exhausted_cleanup
update_shut k now i [] h = tt
update_shut k now i (x ∷ entries) h = elim (Bool-cases (x.id == i)) [
  | inl hit ↦ rw hit ((λ _. refl), update_shut k now i entries h.1)
  | inr miss ↦ rw miss (h.0, update_shut k now i entries h.1)
]

-- A row that is not open is not exhausted either.
exhaust_cleanup-shut :
    (k now n : ℕ) (activation version : Option Uuid) (s : Store)
    → All (λ x. x.id ≡ k → is_open_cleanup now x.state x.lease_expires_at ≡ false) s.cleanups
    → All
        (λ x. x.id ≡ k → is_open_cleanup now x.state x.lease_expires_at ≡ false)
        (exhaust_cleanup now n activation version s).cleanups
unfolding exhaust_cleanup update_cleanup
exhaust_cleanup-shut k now n activation version s h =
    elim (Option-cases
      (oldest (λ e. leb n e.attempt_count && is_candidate now activation version e) s.cleanups)) [
        | inl nothing ↦ rw nothing h
        | inr (e, found) ↦ rw found (update_shut k now e.id s.cleanups h)
      ]

rows_shut :
    (k now : ℕ) (leased : SearchCleanup) (entries : List SearchCleanup)
    → is_open_cleanup now leased.state leased.lease_expires_at ≡ false
    → All (λ x. x.id ≡ k → x ≡ leased) entries
    → All (λ x. x.id ≡ k → is_open_cleanup now x.state x.lease_expires_at ≡ false) entries
rows_shut k now leased [] shut h = tt
rows_shut k now leased (x ∷ entries) shut h =
    ((λ same. rw (h.0 same) shut), rows_shut k now leased entries shut h.1)

-- A lease on an entry is exclusive: in the store that a granted claim leaves, no claim, in whatever
-- scope, is granted for the same entry before the lease runs out.
pub claim_cleanup_excludes :
    (worker_id : String) (now d n : ℕ) (activation version : Option Uuid) (s s' s'' : Store)
    (c c' : SearchCleanupClaim) (worker_id' : String) (now' d' n' : ℕ)
    (activation' version' : Option Uuid)
    → IsKeyed s.cleanups
    → claim_cleanup worker_id now d n activation version s ≡ ok (some c, s')
    → now' < now + d
    → claim_cleanup worker_id' now' d' n' activation' version' s' ≡ ok (some c', s'')
    → c'.id ≢ c.id
unfolding leased_cleanup
claim_cleanup_excludes worker_id now d n activation version s s' s'' c c' worker_id' now' d' n'
      activation' version' keyed first early second same =
    let r = claim_cleanup-IsLeased worker_id now d n activation version s s' c keyed first in
    let shut : is_over now' (some (now + d)) ≡ false = ground arith in
    let (e, e_shut, e_opened, id) =
      claim_cleanup-found
        (λ x. x.id ≡ c.id → is_open_cleanup now' x.state x.lease_expires_at ≡ false) worker_id' now'
        d' n' activation' version' s' s'' c'
        (exhaust_cleanup-shut c.id now' n' activation' version' s' (
          rows_shut c.id now' (leased_cleanup worker_id now d r.entry) s'.cleanups shut
            (leased_after worker_id now d n c s s' r)))
        second in
    let closed_row = e_shut (id ∙ same) in cc
