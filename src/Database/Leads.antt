-- ===== src/Database/Leads.antt =====
-- app/core/database.py: reasoning about a block of statements step by step. A raise discards the
-- store, so nothing is said of it.
use atlas_rag.Database.Session.{
  Session, gets, modify, pure, require, raise_when, ◌>>=◌, ServiceError, bind-eq-ok, lift,
  transaction, transaction-ok, transaction-err,
}
use atlas_rag.Database.{Store}
use atlas_rag.Common.{
  ◌≡◌, Option, Bool, if◌then◌else◌, some, false, true, refl, none, Bool-cases, inl, inr, ◌⊎◌, ap,
}
use atlas_rag.Common.Result.{ok, Result, err}

-- Wherever `m` begins in a store of `P` and returns, what it returns and leaves is of `Q`.
pub record Leads {A : Type 0} (P : Store → Type 0) (m : Session A) (Q : A → Store → Type 0)
    : Type 0 where
  pub leads : (s s' : Store) (a : A) → P s → m s ≡ ok (a, s') → Q a s'

-- What a block keeps, whatever it returns.
abbrev pub Keeps : {A : Type 0} → (Store → Type 0) → Session A → Type 0
Keeps P m = Leads P m (λ _ s. P s)

module _ {A : Type 0} {P : Store → Type 0} {Q : A → Store → Type 0} where
  pub Leads-pure : (a : A) → ((s : Store) → P s → Q a s) → Leads P (pure a) Q
  Leads-pure a h = record {
    leads = λ s s' b p e.
        let same : s ≡ s' = cc in let value : a ≡ b = cc in rw (← same, ← value) (h s p);
  }

  pub Leads-gets : (f : Store → A) → ((s : Store) → P s → Q (f s) s) → Leads P (gets f) Q
  Leads-gets f h = record {
    leads = λ s s' b p e.
        let same : s ≡ s' = cc in let value : f s ≡ b = cc in rw (← same, ← value) (h s p);
  }

  pub Leads-require :
      (row : Option A) (missing : ServiceError)
      → ((a : A) (s : Store) → row ≡ some a → P s → Q a s)
      → Leads P (require row missing) Q
  Leads-require none missing h = record { leads = λ s s' b p e. absurd (cc) }
  Leads-require (some a) missing h = record {
    leads = λ s s' b p e.
        let same : s ≡ s' = cc in let value : a ≡ b = cc in rw (← same, ← value) (h a s refl p);
  }

  pub Leads-if :
      (b : Bool) (m n : Session A) → Leads P m Q → Leads P n Q → Leads P (if b then m else n) Q
  Leads-if true m n yes_case no_case = yes_case
  Leads-if false m n yes_case no_case = no_case

  pub Leads-weaken :
      {m : Session A} {R : A → Store → Type 0}
      → Leads P m Q
      → ((a : A) (s : Store) → Q a s → R a s)
      → Leads P m R
  Leads-weaken h weaker = record { leads = λ s s' a p e. weaker a s' (h.leads s s' a p e) }

  pub Leads-from :
      {m : Session A} {O : Store → Type 0} → Leads P m Q → ((s : Store) → O s → P s) → Leads O m Q
  Leads-from h stronger = record { leads = λ s s' a p e. h.leads s s' a (stronger s p) e }

  pub Leads-bind :
      {B : Type 0} {R : B → Store → Type 0} {m : Session A} {f : A → Session B}
      → Leads P m Q
      → ((a : A) → Leads (Q a) (f a) R)
      → Leads P (m >>= f) R
  Leads-bind {m} {f} first next = record {
    leads = λ s s' b p e.
        let (a, s1, begun, rest) = bind-eq-ok m f s e in
        (next a).leads s1 s' b (first.leads s s1 a p begun) rest;
  }

module _ {P : Store → Type 0} {Q : Unit {0} → Store → Type 0} where
  pub Leads-modify : (f : Store → Store) → ((s : Store) → P s → Q tt (f s)) → Leads P (modify f) Q
  Leads-modify f h = record {
    leads = λ s s' a p e. let same : f s ≡ s' = cc in rw (← same) (h s p);
  }

  -- A guard on what was read before.
  pub Leads-raise_when :
      (b : Store → Bool) (error : ServiceError)
      → ((s : Store) → b s ≡ false → P s → Q tt s)
      → Leads P (λ s. raise_when (b s) error s) Q
  Leads-raise_when b error h = record {
    leads = λ s s' a p e. elim (Bool-cases (b s)) [
      | inl raised ↦ let never = rw raised at e in absurd (cc)
      | inr passed ↦
          let returned = rw passed at e in let same : s ≡ s' = cc in rw (← same) (h s passed p)
    ];
  }

-- A statement that always succeeds, before the rest of a block.
pub Leads-after :
    {A : Type 0} {P R : Store → Type 0} {Q : A → Store → Type 0} (f : Store → Store)
    (rest : Session A)
    → ((s : Store) → P s → R (f s))
    → Leads R rest Q
    → Leads P (λ s. rest (f s)) Q
Leads-after f rest first next = record { leads = λ s s' a p e. next.leads (f s) s' a (first s p) e }

-- A value that is read for the rest of a block.
pub Leads-at :
    {A B : Type 0} {P : Store → Type 0} {Q : A → Store → Type 0} (read : Store → B)
    {rest : B → Session A}
    → ((b : B) → Leads P (rest b) Q)
    → Leads P (λ s. rest (read s) s) Q
Leads-at read next = record { leads = λ s s' a p e. (next (read s)).leads s s' a p e }

pub Leads-lift :
    {A : Type 0} {P : Store → Type 0} {Q : A → Store → Type 0} (r : Result ServiceError A)
    → ((a : A) (s : Store) → P s → Q a s)
    → Leads P (lift r) Q
Leads-lift (ok a) h = Leads-pure a (h a)
Leads-lift (err error) h = record { leads = λ s s' b p e. absurd (cc) }

-- A transaction keeps what its block keeps, committed or rolled back.
pub Keeps-transaction :
    {A : Type 0} {P : Store → Type 0} (m : Session A) (s : Store)
    → Keeps P m
    → P s
    → P (transaction m s).1
Keeps-transaction {A} {P} m s kept p = elim (outcomes (m s)) [
  | inl ((a, s'), committed) ↦
      let after : (transaction m s).1 ≡ s' =
        ap (λ (r : Result ServiceError A × Store). r.1) (transaction-ok m s s' committed) in
      rw after (kept.leads s s' a p committed)
  | inr (e, raised) ↦
      let after : (transaction m s).1 ≡ s =
        ap (λ (r : Result ServiceError A × Store). r.1) (transaction-err m s raised) in
      rw after p
]
  where
    outcomes :
        {B : Type 0} (r : Result ServiceError B)
        → ((b : B) × (r ≡ ok b)) ⊎ ((e : ServiceError) × (r ≡ err e))
    outcomes (ok b) = inl (b, refl)
    outcomes (err e) = inr (e, refl)
