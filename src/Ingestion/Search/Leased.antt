-- ===== src/Ingestion/Search/Leased.antt =====
-- app/services/ingestion/search_recovery.py: the lease on an entry, which one worker holds.
use mathlib.Core.Path.{subst}
use atlas_rag.Common.{
  ℕ, List, update_where, String, Bool, All, ◌≡◌, Option, ◌∷◌, ◌≢◌, Bool-cases, some, refl, inl,
  true, Option-cases, ltb, [], sym, inr, ◌⊎◌, leb, ◌&&◌, ◌∙◌, arith, ◌==◌, any, ap, false,
}
use atlas_rag.Ingestion.Search.{
  oldest, exhausted_cleanup, exhaust_cleanup, claim_cleanup, update_cleanup, SearchCleanupClaim,
  cleanup_claim, is_candidate, leased_cleanup, older, owns_cleanup,
}
use atlas_rag.Database.{SearchCleanup, Uuid, Store}
use atlas_rag.Common.Result.{ok}

-- `id UUID PRIMARY KEY`
abbrev pub IsKeyed : List SearchCleanup → Type 0
IsKeyed [] = Unit
IsKeyed (e ∷ entries) = All (λ x. x.id ≢ e.id) entries × IsKeyed entries

update-All_ne :
    (k : Uuid) (q : SearchCleanup → Bool) (f : SearchCleanup → SearchCleanup)
    (entries : List SearchCleanup)
    → ((e : SearchCleanup) → (f e).id ≡ e.id)
    → All (λ x. x.id ≢ k) entries
    → All (λ x. x.id ≢ k) (update_where q f entries)
unfolding update_where
update-All_ne k q f [] same h = tt
update-All_ne k q f (e ∷ entries) same h = elim (Bool-cases (q e)) [
  | inl hit ↦ rw hit ((λ p. h.0 (sym (same e) ∙ p)), update-All_ne k q f entries same h.1)
  | inr miss ↦ rw miss (h.0, update-All_ne k q f entries same h.1)
]

update_where-IsKeyed :
    (q : SearchCleanup → Bool) (f : SearchCleanup → SearchCleanup) (entries : List SearchCleanup)
    → ((e : SearchCleanup) → (f e).id ≡ e.id)
    → IsKeyed entries
    → IsKeyed (update_where q f entries)
unfolding update_where
update_where-IsKeyed q f [] same h = tt
update_where-IsKeyed q f (e ∷ entries) same h = elim (Bool-cases (q e)) [
  | inl hit ↦
      rw (hit, same e)
        (update-All_ne e.id q f entries same h.0, update_where-IsKeyed q f entries same h.1)
  | inr miss ↦
      rw miss (update-All_ne e.id q f entries same h.0, update_where-IsKeyed q f entries same h.1)
]

-- The row that is found is one of the rows, and fits.
oldest-cases :
    (p : SearchCleanup → Bool) (x : SearchCleanup) (entries : List SearchCleanup)
    (e : SearchCleanup)
    → oldest p (x ∷ entries) ≡ some e
    → ((e ≡ x) × (p x ≡ true)) ⊎ (oldest p entries ≡ some e)
unfolding oldest
oldest-cases p x entries e h = elim (Bool-cases (p x)) [
  | inr miss ↦ inr (rw miss at h)
  | inl hit ↦ elim (Option-cases (oldest p entries)) [
    | inl nothing ↦ inl (ground arith, hit)
    | inr (other, found) ↦ elim (Bool-cases (older x other)) [
      | inl first ↦ inl (ground arith, hit)
      | inr later ↦ inr (found ∙ ground arith)
    ]
  ]
]

pub oldest-All :
    (P : SearchCleanup → Type 0) (p : SearchCleanup → Bool) (entries : List SearchCleanup)
    (e : SearchCleanup)
    → oldest p entries ≡ some e
    → All P entries
    → P e × (p e ≡ true)
unfolding oldest
oldest-All P p [] e h every = absurd (cc)
oldest-All P p (x ∷ entries) e h every = elim (oldest-cases p x entries e h) [
  | inl (same, fits) ↦ rw same (every.0, fits)
  | inr rest ↦ oldest-All P p entries e rest every.1
]

-- It is the only row with its id.
others_differ :
    (e : SearchCleanup) (entries : List SearchCleanup)
    → All (λ x. x.id ≢ e.id) entries
    → All (λ x. x.id ≡ e.id → x ≡ e) entries
others_differ e [] h = tt
others_differ e (x ∷ entries) h = ((λ same. absurd (h.0 same)), others_differ e entries h.1)

oldest-only :
    (p : SearchCleanup → Bool) (entries : List SearchCleanup) (e : SearchCleanup)
    → IsKeyed entries
    → oldest p entries ≡ some e
    → All (λ x. x.id ≡ e.id → x ≡ e) entries
unfolding oldest
oldest-only p [] e keyed h = tt
oldest-only p (x ∷ entries) e keyed h = elim (oldest-cases p x entries e h) [
  | inl (same, fits) ↦
      subst (λ y. All (λ z. z.id ≡ y.id → z ≡ y) (x ∷ entries)) (sym same)
        ((λ _. refl), others_differ x entries keyed.0)
  | inr rest ↦
      let (differs, fits) = oldest-All (λ y. y.id ≢ x.id) p entries e rest keyed.0 in
      ((λ same. absurd (differs (sym same))), oldest-only p entries e keyed.1 rest)
]

exhausted_id : (now : ℕ) (e : SearchCleanup) → (exhausted_cleanup now e).id ≡ e.id
unfolding exhausted_cleanup
exhausted_id now e = refl

exhaust_cleanup-IsKeyed :
    (now n : ℕ) (activation version : Option Uuid) (s : Store)
    → IsKeyed s.cleanups
    → IsKeyed (exhaust_cleanup now n activation version s).cleanups
unfolding exhaust_cleanup update_cleanup
exhaust_cleanup-IsKeyed now n activation version s keyed =
    elim (Option-cases
      (oldest (λ e. leb n e.attempt_count && is_candidate now activation version e) s.cleanups)) [
        | inl nothing ↦ rw nothing keyed
        | inr (e, found) ↦ rw found (
            update_where-IsKeyed (λ x. x.id == e.id) (exhausted_cleanup now) s.cleanups
              (exhausted_id now) keyed)
      ]

-- What a granted claim found, and what it left.
pub record IsLeased (worker_id : String) (now d n : ℕ) (c : SearchCleanupClaim) (s s' : Store)
    : Type 0 where
  pub entry : SearchCleanup
  pub before : Store
  pub keyed : IsKeyed before.cleanups
  pub only : All (λ x. x.id ≡ entry.id → x ≡ entry) before.cleanups
  pub left : ltb entry.attempt_count n ≡ true
  pub is_claim : c ≡ cleanup_claim (leased_cleanup worker_id now d entry)
  pub stored : s' ≡ update_cleanup entry.id (leased_cleanup worker_id now d) before

pub claim_cleanup-IsLeased :
    (worker_id : String) (now d n : ℕ) (activation version : Option Uuid) (s s' : Store)
    (c : SearchCleanupClaim)
    → IsKeyed s.cleanups
    → claim_cleanup worker_id now d n activation version s ≡ ok (some c, s')
    → IsLeased worker_id now d n c s s'
unfolding claim_cleanup
claim_cleanup-IsLeased worker_id now d n activation version s s' c keyed h =
    let s1 : Store = exhaust_cleanup now n activation version s in
    let p : SearchCleanup → Bool =
      λ e. ltb e.attempt_count n && is_candidate now activation version e in
    let keyed' = exhaust_cleanup-IsKeyed now n activation version s keyed in
    elim (Option-cases (oldest p s1.cleanups)) [
      | inl nothing ↦ let never = rw nothing at h in absurd (cc)
      | inr (e, found) ↦
          let leased = rw found at h in
          let only = oldest-only p s1.cleanups e keyed' found in
          let (u, fits) = oldest-All (λ _. Unit {0}) p s1.cleanups e found (every s1.cleanups) in
          let given : cleanup_claim (leased_cleanup worker_id now d e) ≡ c = cc in
          let stored : update_cleanup e.id (leased_cleanup worker_id now d) s1 ≡ s' = cc in
          record {
            entry = e;
            before = s1;
            keyed = keyed';
            only = only;
            left = ground arith;
            is_claim = sym given;
            stored = sym stored;
          }
    ]
  where
    every : (entries : List SearchCleanup) → All (λ _. Unit {0}) entries
    every [] = tt
    every (e ∷ entries) = (tt, every entries)

-- Rows that no claim of another attempt owns.
pub owned_by_none :
    (worker_id : String) (c : SearchCleanupClaim) (entries : List SearchCleanup)
    → All (λ x. x.id ≡ c.id → x.attempt_count ≢ c.attempt_number) entries
    → any (owns_cleanup c worker_id) entries ≡ false
unfolding any owns_cleanup
owned_by_none worker_id c [] h = refl
owned_by_none worker_id c (x ∷ entries) h =
    let rest = owned_by_none worker_id c entries h.1 in
    elim (Bool-cases (owns_cleanup c worker_id x)) [
      | inl owned ↦
          let same : x.id ≡ c.id = ground arith in
          let count : x.attempt_count ≡ c.attempt_number = ground arith in absurd (h.0 same count)
      | inr free ↦ ground arith
    ]

pub update_where-none :
    (q : SearchCleanup → Bool) (f : SearchCleanup → SearchCleanup) (entries : List SearchCleanup)
    → any q entries ≡ false
    → update_where q f entries ≡ entries
unfolding update_where any
update_where-none q f [] h = refl
update_where-none q f (e ∷ entries) h =
    let this : q e ≡ false = ground arith in
    let rest : any q entries ≡ false = ground arith in
    rw (this, update_where-none q f entries rest) refl

-- The entry after the claim: leased until then, at the number of the claim.
pub leased_rows :
    (worker_id : String) (now d : ℕ) (e : SearchCleanup) (entries : List SearchCleanup)
    → All (λ x. x.id ≡ e.id → x ≡ e) entries
    → All
        (λ x. x.id ≡ e.id → x ≡ leased_cleanup worker_id now d e)
        (update_where (λ x. x.id == e.id) (leased_cleanup worker_id now d) entries)
unfolding update_where
leased_rows worker_id now d e [] h = tt
leased_rows worker_id now d e (x ∷ entries) h = elim (Bool-cases (x.id == e.id)) [
  | inl hit ↦
      let same : x ≡ e = h.0 (ground arith) in
      rw hit
        ((λ _. ap (leased_cleanup worker_id now d) same), leased_rows worker_id now d e entries h.1)
  | inr miss ↦ rw miss ((λ same. absurd (ground arith)), leased_rows worker_id now d e entries h.1)
]
