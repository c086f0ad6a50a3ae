-- ===== src/Database/Quiet.antt =====
-- app/core/database.py: blocks of statements that neither move a version nor record an event.
use atlas_rag.Database.{Store}
use atlas_rag.Database.Session.{
  Session, pure, gets, ◌>>=◌, modify, ServiceError, bind-eq-ok, require, raise_when,
}
use atlas_rag.Common.{◌≡◌, Option, Bool, if◌then◌else◌, refl, ◌∙◌, true, some, false, none}
use atlas_rag.Common.Result.{ok}

pub record IsQuiet {A : Type 0} (m : Session A) : Type 0 where
  pub quiet :
      (s s' : Store) (a : A)
      → m s ≡ ok (a, s')
      → (s'.versions ≡ s.versions) × (s'.events ≡ s.events)

module _ {A : Type 0} where
  pub IsQuiet-pure : (a : A) → IsQuiet (pure a)
  IsQuiet-pure a = record {
    quiet = λ s s' b h. let after : s ≡ s' = cc in rw (← after) (refl, refl);
  }

  pub IsQuiet-gets : (f : Store → A) → IsQuiet (gets f)
  IsQuiet-gets f = record {
    quiet = λ s s' b h. let after : s ≡ s' = cc in rw (← after) (refl, refl);
  }

  pub IsQuiet-require : (row : Option A) (missing : ServiceError) → IsQuiet (require row missing)
  IsQuiet-require none missing = record { quiet = λ s s' b h. absurd (cc) }
  IsQuiet-require (some a) missing = IsQuiet-pure a

  pub IsQuiet-if :
      (b : Bool) (m n : Session A) → IsQuiet m → IsQuiet n → IsQuiet (if b then m else n)
  IsQuiet-if true m n yes_case no_case = yes_case
  IsQuiet-if false m n yes_case no_case = no_case

  pub IsQuiet-bind :
      {B : Type 0} (m : Session A) (f : A → Session B)
      → IsQuiet m
      → ((a : A) → IsQuiet (f a))
      → IsQuiet (m >>= f)
  IsQuiet-bind m f first next = record {
    quiet = λ s s' b h.
        let (a, s1, begun, rest) = bind-eq-ok m f s h in
        let (versions, events) = first.quiet s s1 a begun in
        let (versions', events') = (next a).quiet s1 s' b rest in
        (versions' ∙ versions, events' ∙ events);
  }

pub IsQuiet-modify :
    (f : Store → Store)
    → ((s : Store) → ((f s).versions ≡ s.versions) × ((f s).events ≡ s.events))
    → IsQuiet (modify f)
IsQuiet-modify f same = record {
  quiet = λ s s' u h. let after : f s ≡ s' = cc in rw (← after) (same s);
}

pub IsQuiet-raise_when : (b : Bool) (e : ServiceError) → IsQuiet (raise_when b e)
IsQuiet-raise_when true e = record { quiet = λ s s' u h. absurd (cc) }
IsQuiet-raise_when false e = IsQuiet-pure tt
