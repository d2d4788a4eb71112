-- ===== src/Journal/Keeps.antt =====
-- Invariants of operations on the directory of src/dyro/continuation/action_journal.py: one rule for
-- each way to build an operation.
use dyro_engineering_flow.Prelude.{
  ◌≡◌, refl, sym, subst, ◌⊎◌, inl, inr, Bool, true, false, Option, none, some, if◌then◌else◌,
}
use dyro_engineering_flow.Journal.Store.{
  ActionFile, is_torn, create_new, JournalError, Result, ok, err, Directory, M, pure, raise, reads,
  continue, ◌>>=◌, cases, guard,
}

-- From a directory with `P`, `m` ends in one with `P`, whether it returns or raises.
pub record Keeps {A : Type 0} (P : Directory → Type 0) (m : M A) : Type 0 where
  pub at : (d : Directory) → P d → P (m d).1

pub Result-cases :
    {A : Type 0} (r : Result A) → ((a : A) × (r ≡ ok a)) ⊎ ((e : JournalError) × (r ≡ err e))
Result-cases (ok a) = inl (a, refl)
Result-cases (err e) = inr (e, refl)

module _ {A : Type 0} {P : Directory → Type 0} where
  pub pure-Keeps : (a : A) → Keeps P (pure a)
  unfolding pure
  pure-Keeps a = record { at = λ d h. h }

  pub raise-Keeps : (e : JournalError) → Keeps P (raise {A = A} e)
  unfolding raise
  raise-Keeps e = record { at = λ d h. h }

  pub reads-Keeps : (f : Directory → Result A) → Keeps P (reads f)
  unfolding reads
  reads-Keeps f = record { at = λ d h. h }

  pub if-Keeps :
      (b : Bool) (m n : M A)
      → (b ≡ true → Keeps P m)
      → (b ≡ false → Keeps P n)
      → Keeps P (if b then m else n)
  if-Keeps true m n x y = x refl
  if-Keeps false m n x y = y refl

module _ {A B : Type 0} {P : Directory → Type 0} where
  pub cases-Keeps :
      (o : Option A) (m : M B) (f : A → M B)
      → Keeps P m
      → ((a : A) → o ≡ some a → Keeps P (f a))
      → Keeps P (cases o m f)
  unfolding cases
  cases-Keeps none m f x y = x
  cases-Keeps (some a) m f x y = y a refl

  continue-Keeps :
      (r : Result A) (f : A → M B)
      → ((a : A) → Keeps P (f a))
      → (d : Directory) → P d
      → P (continue r f d).1
  continue-Keeps (ok a) f k d h = (k a).at d h
  continue-Keeps (err e) f k d h = h

  pub bind-Keeps :
      (m : M A) (f : A → M B) → Keeps P m → ((a : A) → Keeps P (f a)) → Keeps P (m >>= f)
  unfolding ◌>>=◌
  bind-Keeps m f x k = record {
    at = λ d h. let (r, d') = m d in continue-Keeps r f k d' (x.at d h);
  }

module _ {A B : Type 0} (P : Directory → Type 0) where
  -- The rest runs where the first part returned, or the call ends there.
  pub bind_cases :
      (m : M A) (f : A → M B) (d : Directory)
      → P (m d).1
      → ((a : A) → (m d).0 ≡ ok a → P (f a (m d).1).1)
      → P ((m >>= f) d).1
  unfolding ◌>>=◌
  bind_cases m f d x k = elim (Result-cases (m d).0) [
    | inl (a, e) ↦ rw (e, continue) (k a e)
    | inr (c, e) ↦ rw (e, continue) x
  ]

  -- A first part that changes nothing.
  pub read_cases :
      (m : M A) (f : A → M B) (d : Directory)
      → (m d).1 ≡ d
      → P d
      → ((a : A) → (m d).0 ≡ ok a → P (f a d).1)
      → P ((m >>= f) d).1
  read_cases m f d same x k =
      bind_cases m f d (rw same x) (λ a e. subst (λ s. P (f a s).1) (sym same) (k a e))

  -- An invariant of the first part that gives what the rest needs.
  pub bind_from :
      {Q : Directory → Type 0} (m : M A) (f : A → M B) (d : Directory)
      → Keeps Q m
      → Q d
      → ((e : Directory) → Q e → P e)
      → ((a : A) (e : Directory) → Q e → P (f a e).1)
      → P ((m >>= f) d).1
  bind_from m f d x q weaken k = bind_cases m f d (weaken _ (x.at d q)) (λ a _. k a _ (x.at d q))

pub pure_state : {A : Type 0} (a : A) (d : Directory) → (pure a d).1 ≡ d
unfolding pure
pure_state a d = refl

pub raise_state : (A : Type 0) (e : JournalError) (d : Directory) → (raise {A = A} e d).1 ≡ d
unfolding raise
raise_state A e d = refl

module _ {B : Type 0} (P : Directory → Type 0) (d : Directory) where
  -- The same rules at one directory, where the rest may use what was read.
  pub reads_at :
      {A : Type 0} (g : Directory → Result A) (f : A → M B)
      → P d
      → ((a : A) → g d ≡ ok a → P (f a d).1)
      → P ((reads g >>= f) d).1
  unfolding ◌>>=◌
  reads_at g f x k = elim (Result-cases (g d)) [
    | inl (a, e) ↦ rw (e, continue) (k a e)
    | inr (c, e) ↦ rw (e, continue) x
  ]

  pub guard_at :
      (b : Bool) (e : JournalError) (f : Unit {0} → M B)
      → P d
      → (b ≡ true → P (f tt d).1)
      → P ((guard b e >>= f) d).1
  unfolding ◌>>=◌
  guard_at true e f x k = k refl
  guard_at false e f x k = x

  pub cases_at :
      {A : Type 0} (o : Option A) (m : M B) (f : A → M B)
      → (o ≡ none → P (m d).1)
      → ((a : A) → o ≡ some a → P (f a d).1)
      → P (cases o m f d).1
  unfolding cases
  cases_at none m f x y = x refl
  cases_at (some a) m f x y = y a refl

  pub if_at :
      (b : Bool) (m n : M B)
      → (b ≡ true → P (m d).1)
      → (b ≡ false → P (n d).1)
      → P ((if b then m else n) d).1
  if_at true m n x y = x refl
  if_at false m n x y = y refl

-- A file that is created, where it does not exist yet.
pub created_at :
    {V : Type 0} (P : Directory → Type 0) (file : ActionFile) (o : Option V)
    (write : Directory → Directory) (d : Directory)
    → P d
    → (o ≡ none → P (write d))
    → P (create_new file o write d).1
created_at P file none write d x y = by (is_torn file d)
  where
    by :
        (b : Bool)
        → P (if◌then◌else◌ {A = Result Bool × Directory} b (ok false, d) (ok true, write d)).1
    by true = x
    by false = y refl
created_at P file (some _) write d x y = x

pub ruleset keeps_rules = (pure-Keeps, raise-Keeps, reads-Keeps, if-Keeps, cases-Keeps, bind-Keeps)
