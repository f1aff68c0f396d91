-- ===== src/Base/Lists.antt =====
-- Lists measured by native numbers, and filters by Boolean tests.
use Prim.Native.Nat.{ℕ, zero, suc, ◌+◌, ◌*◌, ◌≤◌}
use mathlib.Core.Path.{◌≡◌, refl, ap}
use mathlib.Core.Logic.{◌≢◌, ◌⊎◌, inl, inr}
use mathlib.Core.Bool.{Bool}
use mathlib.Core.Option.{Option, none, some}
use mathlib.Core.List.{List, [], ◌∷◌, ◌++◌, map}
use native.Mathlib.Omega.{arith}
use native.Mathlib.Nat.{zero-add, suc-add}
use evercore.Base.Tests.{if◌then◌else◌}

module _ {ℓ} {A : Type ℓ} where
  abbrev pub length : List A → ℕ
  length [] = 0
  length (x ∷ xs) = suc (length xs)

  abbrev pub take : ℕ → List A → List A
  take zero xs = []
  take (suc n) [] = []
  take (suc n) (x ∷ xs) = x ∷ take n xs

  abbrev pub drop : ℕ → List A → List A
  drop zero xs = xs
  drop (suc n) [] = []
  drop (suc n) (x ∷ xs) = drop n xs

  abbrev pub get_elem? : List A → ℕ → Option A
  get_elem? [] i = none
  get_elem? (x ∷ xs) zero = some x
  get_elem? (x ∷ xs) (suc i) = get_elem? xs i

  -- The elements that pass a Boolean test, in order.
  abbrev pub keep_if : (A → Bool) → List A → List A
  keep_if p [] = []
  keep_if p (x ∷ xs) = let rest = keep_if p xs in if p x then x ∷ rest else rest

  abbrev pub All {κ} : (A → Type κ) → List A → Type κ
  All P [] = Unit
  All P (x ∷ xs) = P x × All P xs

  pub length-append : (xs ys : List A) → length (xs ++ ys) ≡ length xs + length ys
  length-append [] ys = omega arith
  length-append (x ∷ xs) ys = omega (arith, length-append xs ys)

  pub take-append-drop : (n : ℕ) (xs : List A) → take n xs ++ drop n xs ≡ xs
  take-append-drop zero xs = refl
  take-append-drop (suc n) [] = refl
  take-append-drop (suc n) (x ∷ xs) = ap (◌∷◌ x) (take-append-drop n xs)

  pub keep_if-append :
      (p : A → Bool) (xs ys : List A) → keep_if p (xs ++ ys) ≡ keep_if p xs ++ keep_if p ys
  keep_if-append p [] ys = refl
  keep_if-append p (x ∷ xs) ys = ground (arith, keep_if-append p xs ys)

  pub All-append {κ} : (P : A → Type κ) (xs ys : List A) → All P xs → All P ys → All P (xs ++ ys)
  All-append P [] ys hx hy = hy
  All-append P (x ∷ xs) ys hx hy = (hx.0, All-append P xs ys hx.1 hy)

  pub List-cases : (xs : List A) → (xs ≡ []) ⊎ (xs ≢ [])
  List-cases [] = inl refl
  List-cases (x ∷ xs) = inr (λ e. cc)

  pub take-ne-nil : (k : ℕ) (xs : List A) → xs ≢ [] → take (suc k) xs ≢ []
  take-ne-nil k [] h = h
  take-ne-nil k (x ∷ xs) h = λ e. cc

  pub take-nil : (n : ℕ) → take n (let e : List A = [] in e) ≡ []
  take-nil zero = refl
  take-nil (suc n) = refl

  pub drop-nil : (n : ℕ) → drop n (let e : List A = [] in e) ≡ []
  drop-nil zero = refl
  drop-nil (suc n) = refl

  pub take-add : (m n : ℕ) (xs : List A) → take m xs ++ take n (drop m xs) ≡ take (m + n) xs
  take-add zero n xs = rw zero-add
  take-add (suc m) n [] = rw (suc-add m n) (take-nil n)
  take-add (suc m) n (x ∷ xs) = rw (suc-add m n) (ap (◌∷◌ x) (take-add m n xs))

  pub drop-add : (m n : ℕ) (xs : List A) → drop n (drop m xs) ≡ drop (m + n) xs
  drop-add zero n xs = rw zero-add
  drop-add (suc m) n [] = rw (suc-add m n) (drop-nil n)
  drop-add (suc m) n (x ∷ xs) = rw (suc-add m n) (drop-add m n xs)

  -- A count that is large enough takes the whole list, and drops it.
  pub take_of_length-le : (count : ℕ) (l : List A) → length l ≤ count → take count l ≡ l
  take_of_length-le count [] short = take-nil count
  take_of_length-le zero (a ∷ l) short = absurd (omega arith)
  take_of_length-le (suc count) (a ∷ l) short =
      ap (λ r. a ∷ r) (take_of_length-le count l (omega arith))

  pub drop_of_length-le : (count : ℕ) (l : List A) → length l ≤ count → drop count l ≡ []
  drop_of_length-le count [] short = drop-nil count
  drop_of_length-le zero (a ∷ l) short = absurd (omega arith)
  drop_of_length-le (suc count) (a ∷ l) short = drop_of_length-le count l (omega arith)

  pub take-rounds :
      (n b : ℕ) (xs : List A) → take b xs ++ take (n * b) (drop b xs) ≡ take (suc n * b) xs
  take-rounds n b xs = let e : suc n * b ≡ b + n * b = omega arith in rw e (take-add b (n * b) xs)

  pub drop-rounds : (n b : ℕ) (xs : List A) → drop (n * b) (drop b xs) ≡ drop (suc n * b) xs
  drop-rounds n b xs = let e : suc n * b ≡ b + n * b = omega arith in rw e (drop-add b (n * b) xs)

pub take-map {ℓ κ} :
    {A : Type ℓ} {B : Type κ} (f : A → B) (n : ℕ) (xs : List A)
    → take n (map f xs) ≡ map f (take n xs)
take-map f zero xs = refl
take-map f (suc n) [] = refl
take-map f (suc n) (x ∷ xs) = ap (λ l. f x ∷ l) (take-map f n xs)

pub drop-map {ℓ κ} :
    {A : Type ℓ} {B : Type κ} (f : A → B) (n : ℕ) (xs : List A)
    → drop n (map f xs) ≡ map f (drop n xs)
drop-map f zero xs = refl
drop-map f (suc n) [] = refl
drop-map f (suc n) (x ∷ xs) = drop-map f n xs
