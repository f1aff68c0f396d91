-- ===== src/Base/Preserves.antt =====
-- A property of the state that a method keeps on every path, and one of the value and the state
-- that it leaves where it succeeds.
use Prim.Native.String.{String}
use mathlib.Core.Path.{◌≡◌, refl, subst}
use mathlib.Core.Bool.{Bool, true, false}
use evercore.Base.Tests.{if◌then◌else◌}
use evercore.Base.Outcome.{M, Outcome, ok, err, panic, ◌>>=◌, resume, relabel}

abbrev pub Preserves : {S A : Type 0} → (S → Type 0) → M S A → Type 0
Preserves {S} P m = (s : S) → P s → P (m s).1

module _ {S A B : Type 0} (P : S → Type 0) where
  pub resume-Preserves :
      (r : Outcome A × S) (f : A → M S B) → P r.1 → ((a : A) → Preserves P (f a)) → P (resume r f).1
  resume-Preserves (ok a, s) f h k = k a s h
  resume-Preserves (err e, s) f h k = h
  resume-Preserves (panic m, s) f h k = h

  pub >>=-Preserves :
      (m : M S A) (f : A → M S B)
      → Preserves P m
      → ((a : A) → Preserves P (f a))
      → Preserves P (m >>= f)
  >>=-Preserves m f h k s p = resume-Preserves (m s) f (h s p) k

module _ {S A : Type 0} (P : S → Type 0) where
  pub if-Preserves :
      (b : Bool) (m n : M S A) → Preserves P m → Preserves P n → Preserves P (if b then m else n)
  if-Preserves true m n h k = h
  if-Preserves false m n h k = k

abbrev pub OnSuccess : {S A : Type 0} → (A → S → Type 0) → Outcome A × S → Type 0
OnSuccess Q (ok a, s) = Q a s
OnSuccess Q (err e, s) = Unit
OnSuccess Q (panic m, s) = Unit

abbrev pub Ensures : {S A : Type 0} → (S → Type 0) → M S A → (A → S → Type 0) → Type 0
Ensures {S} P m Q = (s : S) → P s → OnSuccess Q (m s)

module _ {S : Type 0} where
  pub OnSuccess-relabel :
      {A : Type 0} (Q : A → S → Type 0) (l : String) (r : Outcome A × S)
      → OnSuccess Q r
      → OnSuccess Q (relabel l r.0, r.1)
  OnSuccess-relabel Q l (ok a, s) q = q
  OnSuccess-relabel Q l (err e, s) q = q
  OnSuccess-relabel Q l (panic m, s) q = q

  pub OnSuccess-resume :
      {A B : Type 0} (Q : A → S → Type 0) (R : B → S → Type 0) (r : Outcome A × S) (f : A → M S B)
      → OnSuccess Q r
      → ((a : A) → Ensures (Q a) (f a) R)
      → OnSuccess R (resume r f)
  OnSuccess-resume Q R (ok a, s) f q k = k a s q
  OnSuccess-resume Q R (err e, s) f q k = tt
  OnSuccess-resume Q R (panic m, s) f q k = tt

  -- A property that is kept on every path is there on success.
  pub Preserves-OnSuccess :
      {A : Type 0} (P : S → Type 0) (r : Outcome A × S) → P r.1 → OnSuccess (λ _. P) r
  Preserves-OnSuccess P (ok a, s) p = p
  Preserves-OnSuccess P (err e, s) p = tt
  Preserves-OnSuccess P (panic m, s) p = tt

  pub OnSuccess-ok :
      {A : Type 0} (Q : A → S → Type 0) (r : Outcome A × S) (a : A) (s : S)
      → r ≡ (ok a, s)
      → OnSuccess Q r
      → Q a s
  OnSuccess-ok Q r a s e q = subst (OnSuccess Q) e q

  pub OnSuccess-weaken :
      {A : Type 0} (Q R : A → S → Type 0) (r : Outcome A × S)
      → ((a : A) (s : S) → Q a s → R a s)
      → OnSuccess Q r
      → OnSuccess R r
  OnSuccess-weaken Q R (ok a, s) f q = f a s q
  OnSuccess-weaken Q R (err e, s) f q = tt
  OnSuccess-weaken Q R (panic m, s) f q = tt

  pub OnSuccess-both :
      {A : Type 0} (Q R : A → S → Type 0) (r : Outcome A × S)
      → OnSuccess Q r
      → OnSuccess R r
      → OnSuccess (λ a s. Q a s × R a s) r
  OnSuccess-both Q R (ok a, s) q r = (q, r)
  OnSuccess-both Q R (err e, s) q r = tt
  OnSuccess-both Q R (panic m, s) q r = tt

  -- A call on a part of the state, of which its property speaks.
  pub OnSuccess-within :
      {T A : Type 0} (Q : A → S → Type 0) (R : A → T → Type 0) (into : S → T) (r : Outcome A × S)
      → ((a : A) (s : S) → Q a s → R a (into s))
      → OnSuccess Q r
      → OnSuccess R (r.0, into r.1)
  OnSuccess-within Q R into (ok a, s) f q = f a s q
  OnSuccess-within Q R into (err e, s) f q = tt
  OnSuccess-within Q R into (panic m, s) f q = tt

-- What follows a call matters at its values only.
pub resume_ext :
    {S A B : Type 0} (r : Outcome A × S) (f g : A → M S B)
    → ((a : A) (s : S) → f a s ≡ g a s)
    → resume r f ≡ resume r g
resume_ext (ok a, s) f g same = same a s
resume_ext (err e, s) f g same = refl
resume_ext (panic m, s) f g same = refl
