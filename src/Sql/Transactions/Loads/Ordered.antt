-- ===== src/Sql/Transactions/Loads/Ordered.antt =====
-- What `ORDER BY` does to a list.
use mathlib.Core.List.{Perm}
use mathlib.Core.List.Perm
use evercore.Base.{ℕ, ◌≤◌, List, [], ◌∷◌, leb, All, Bool-cases, inl, inr, arith}
use evercore.Sql.Tables.Rows.{place, order_by}

module _ {A : Type 0} (by : A → ℕ) where
  -- No element is greater than a later one.
  abbrev pub Ascends : List A → Type 0
  Ascends [] = Unit
  Ascends (x ∷ xs) = All (λ y. by x ≤ by y) xs × Ascends xs

  place-perm : (x : A) (xs : List A) → Perm (place by x xs) (x ∷ xs)
  place-perm x [] = Perm.rfl
  place-perm x (y ∷ ys) = elim (Bool-cases (leb (by x) (by y))) [
    | inl before ↦ rw before Perm.rfl
    | inr after ↦ rw after (Perm.trans (Perm.cons y (place-perm x ys)) (Perm.swap x y ys))
  ]

  pub order_by-perm : (xs : List A) → Perm (order_by by xs) xs
  order_by-perm [] = Perm.rfl
  order_by-perm (x ∷ xs) =
      Perm.trans (place-perm x (order_by by xs)) (Perm.cons x (order_by-perm xs))

  All-below : (n m : ℕ) (xs : List A) → n ≤ m → All (λ y. m ≤ by y) xs → All (λ y. n ≤ by y) xs
  All-below n m [] h all = tt
  All-below n m (x ∷ xs) h (first, all) = (omega (arith, h, first), All-below n m xs h all)

  place-All :
      (n : ℕ) (x : A) (xs : List A)
      → n ≤ by x
      → All (λ y. n ≤ by y) xs
      → All (λ y. n ≤ by y) (place by x xs)
  place-All n x [] h all = (h, tt)
  place-All n x (y ∷ ys) h (first, all) = elim (Bool-cases (leb (by x) (by y))) [
    | inl before ↦ rw before (h, (first, all))
    | inr after ↦ rw after (first, place-All n x ys h all)
  ]

  place-Ascends : (x : A) (xs : List A) → Ascends xs → Ascends (place by x xs)
  place-Ascends x [] up = (tt, tt)
  place-Ascends x (y ∷ ys) (below, up) = elim (Bool-cases (leb (by x) (by y))) [
    | inl before ↦
        let h : by x ≤ by y = ground arith in
        rw before ((h, All-below (by x) (by y) ys h below), (below, up))
    | inr after ↦
        let h : by y ≤ by x = ground arith in
        rw after (place-All (by y) x ys h below, place-Ascends x ys up)
  ]

  pub order_by-Ascends : (xs : List A) → Ascends (order_by by xs)
  order_by-Ascends [] = tt
  order_by-Ascends (x ∷ xs) = place-Ascends x (order_by by xs) (order_by-Ascends xs)
