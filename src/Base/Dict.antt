-- ===== src/Base/Dict.antt =====
-- A Go map as an association list. A write replaces the entry of its key, or adds one.
use mathlib.Core.Path.{◌≡◌, refl, sym, ap, ◌∙◌}
use mathlib.Core.Logic.{◌≢◌, inl, inr}
use mathlib.Core.Option.{Option, none, some}
use mathlib.Core.List.{List, [], ◌∷◌}
use native.Mathlib.Omega.{arith}
use evercore.Base.Tests.{Eq, ◌==◌, ==_refl, ==_ne, Bool-cases, if◌then◌else◌}

abbrev pub Dict : Type 0 → Type 0 → Type 0
Dict K V = List (K × V)

module _ {K V : Type 0} ⦃e : Eq K⦄ where
  unfoldable pub lookup : K → Dict K V → Option V
  lookup k [] = none
  lookup k ((j, v) ∷ m) = if j == k then some v else lookup k m

  unfoldable pub insert : K → V → Dict K V → Dict K V
  insert k v [] = (k, v) ∷ []
  insert k v ((j, w) ∷ m) = if j == k then (k, v) ∷ m else (j, w) ∷ insert k v m

  -- `delete(m, k)`
  unfoldable pub delete : K → Dict K V → Dict K V
  delete k [] = []
  delete k ((j, w) ∷ m) = let rest = delete k m in if j == k then rest else (j, w) ∷ rest

  pub lookup-insert_self : (k : K) (v : V) (m : Dict K V) → lookup k (insert k v m) ≡ some v
  unfolding lookup insert
  lookup-insert_self k v [] = rw (==_refl k)
  lookup-insert_self k v ((j, w) ∷ m) = elim (Bool-cases (j == k)) [
    | inl t ↦ rw (t, ==_refl k)
    | inr f ↦ rw (f, f) (lookup-insert_self k v m)
  ]

  pub lookup-insert_ne :
      (k j : K) (v : V) (m : Dict K V) → k ≢ j → lookup j (insert k v m) ≡ lookup j m
  unfolding lookup insert
  lookup-insert_ne k j v [] h = rw (==_ne k j h)
  lookup-insert_ne k j v ((i, w) ∷ m) h = elim (Bool-cases (i == k)) [
    | inl t ↦
        let ij : i ≢ j = λ q. h (sym ((e.same_iff i k).0 t) ∙ q) in
        rw (t, ==_ne k j h, ==_ne i j ij)
    | inr f ↦ rw f (ap (λ r. if i == j then some w else r) (lookup-insert_ne k j v m h))
  ]

  pub lookup-delete_self : (k : K) (m : Dict K V) → lookup k (delete k m) ≡ none
  unfolding lookup delete
  lookup-delete_self k [] = refl
  lookup-delete_self k ((j, w) ∷ m) = ground (arith, lookup-delete_self k m)

  pub lookup-delete_ne : (k j : K) (m : Dict K V) → k ≢ j → lookup j (delete k m) ≡ lookup j m
  unfolding lookup delete
  lookup-delete_ne k j [] h = refl
  lookup-delete_ne k j ((i, w) ∷ m) h =
      ground (arith, lookup-delete_ne k j m, e.same_iff i k, e.same_iff i j)
