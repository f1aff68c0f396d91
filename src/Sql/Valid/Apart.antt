-- ===== src/Sql/Valid/Apart.antt =====
-- Rows without conflicts, under new rows and updates.
use evercore.Base.{
  ℕ, ◌+◌, ◌<◌, Bool, true, false, List, [], ◌∷◌, ◌++◌, ◌==◌, ◌≡◌, nat_eq, All, refl, sym, ◌∙◌, inl,
  inr, arith, Bool-cases, All-append, leb,
}
use evercore.Sql.Tables.Rows.{any, update, max_id}
use evercore.Sql.Valid.{Apart}

module _ {A : Type 0} where
  pub Apart-append :
      (same : A → A → Bool) (xs : List A) (y : A)
      → any (λ x. same x y) xs ≡ false
      → Apart same xs
      → Apart same (xs ++ y ∷ [])
  Apart-append same [] y fresh apart = (tt, tt)
  Apart-append same (x ∷ xs) y fresh (alone, apart) = elim (Bool-cases (same x y)) [
    | inl hit ↦ absurd (let met : any (λ x. same x y) (x ∷ xs) ≡ true = rw hit refl in cc)
    | inr miss ↦
        let later : any (λ x. same x y) (x ∷ xs) ≡ any (λ x. same x y) xs = rw miss refl in
        (
          All-append (λ o. same x o ≡ false) xs (y ∷ []) alone (miss, tt),
          Apart-append same xs y (sym later ∙ fresh) apart,
        )
  ]

  -- A test that fails on every row.
  pub any-none : (p : A → Bool) (xs : List A) → ((x : A) → p x ≡ false) → any p xs ≡ false
  any-none p [] never = refl
  any-none p (x ∷ xs) never = rw (never x) (any-none p xs never)

  -- No row has an id above the greatest.
  above_max :
      (id : A → ℕ) (n : ℕ) (xs : List A) → max_id id xs < n → any (λ x. id x == n) xs ≡ false
  above_max id n [] h = refl
  above_max id n (x ∷ xs) h =
      let rest = above_max id n xs (omega arith) in
      let miss : (id x == n) ≡ false = ground arith in rw miss rest

  pub max_id-fresh : (id : A → ℕ) (xs : List A) → any (λ x. id x == max_id id xs + 1) xs ≡ false
  max_id-fresh id xs = above_max id (max_id id xs + 1) xs (omega arith)

  above_all :
      (id : A → ℕ) (n : ℕ) (xs : List A) → max_id id xs < n → any (λ x. leb n (id x)) xs ≡ false
  above_all id n [] h = refl
  above_all id n (x ∷ xs) h =
      let rest = above_all id n xs (omega arith) in
      let miss : leb n (id x) ≡ false = ground arith in rw miss rest

  pub max_id-later :
      (id : A → ℕ) (xs : List A) → any (λ x. leb (max_id id xs + 1) (id x)) xs ≡ false
  max_id-later id xs = above_all id (max_id id xs + 1) xs (omega arith)

  All-update :
      (same : A → A → Bool) (p : A → Bool) (f : A → A) (x : A) (xs : List A)
      → ((o : A) → same x (f o) ≡ same x o)
      → All (λ o. same x o ≡ false) xs
      → All (λ o. same x o ≡ false) (update p f xs)
  All-update same p f x [] keeps all = tt
  All-update same p f x (o ∷ xs) keeps (a, all) = elim (Bool-cases (p o)) [
    | inl hit ↦ rw hit (keeps o ∙ a, All-update same p f x xs keeps all)
    | inr miss ↦ rw miss (a, All-update same p f x xs keeps all)
  ]

  All-changed :
      (same : A → A → Bool) (f : A → A) (x : A) (xs : List A)
      → ((o : A) → same (f x) o ≡ same x o)
      → All (λ o. same x o ≡ false) xs
      → All (λ o. same (f x) o ≡ false) xs
  All-changed same f x [] keeps all = tt
  All-changed same f x (o ∷ xs) keeps (a, all) = (keeps o ∙ a, All-changed same f x xs keeps all)

  -- An update that does not touch what the conflict is about.
  pub Apart-update :
      (same : A → A → Bool) (p : A → Bool) (f : A → A) (xs : List A)
      → ((x o : A) → same (f x) o ≡ same x o)
      → ((x o : A) → same x (f o) ≡ same x o)
      → Apart same xs
      → Apart same (update p f xs)
  Apart-update same p f [] l r apart = tt
  Apart-update same p f (x ∷ xs) l r (alone, apart) =
      let rest = Apart-update same p f xs l r apart in
      let others = All-update same p f x xs (r x) alone in
      elim (Bool-cases (p x)) [
        | inl hit ↦ rw hit (All-changed same f x (update p f xs) (l x) others, rest)
        | inr miss ↦ rw miss (others, rest)
      ]
