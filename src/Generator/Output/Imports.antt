-- ===== src/Generator/Output/Imports.antt =====
-- Which packages the generated code imports.
use evercore.Base.{
  String, List, [], ◌∷◌, Bool, true, false, map, not, ◌&&◌, ◌||◌, ◌==◌, ◌≡◌, refl, ap, ◌∙◌, sym,
  arith, string_eq, Bool-cases, inl, inr, ==_ne, subst,
}
use evercore.Base.Dict.{Dict, insert}
use evercore.Generator.Directives.{Directive, LocatedDirectives, aggregate}
use evercore.Generator.Output.{collect_values, unique_packages}

abbrev pub includes : String → List String → Bool
includes p [] = false
includes p (q ∷ qs) = q == p || includes p qs

-- No name stands twice in a list.
abbrev pub AreDistinct : List String → Type 0
AreDistinct [] = Unit
AreDistinct (p ∷ ps) = (includes p ps ≡ false) × AreDistinct ps

-- A directive of a map, other than for an aggregate, that stands in the package.
abbrev pub needs : String → Dict String Directive → Bool
needs p [] = false
needs p ((k, d) ∷ m) = (not (d.directive_type == aggregate) && d.package_path == p) || needs p m

abbrev pub needs_package : LocatedDirectives → String → Bool
needs_package located p =
    needs p located.state_events || (needs p located.events || needs p located.aggregates)

abbrev keys : Dict String Bool → List String
keys m = map (λ e. e.0) m

includes-insert :
    (p k : String) (m : Dict String Bool)
    → includes p (keys (insert k true m)) ≡ (k == p || includes p (keys m))
unfolding insert
includes-insert p k [] = refl
includes-insert p k ((j, v) ∷ m) = elim (Bool-cases (j == k)) [
  | inl same ↦ rw same (ground (arith, (string_eq.same_iff j k).0 same))
  | inr other ↦ rw other (ground (arith, includes-insert p k m))
]

insert-AreDistinct :
    (k : String) (m : Dict String Bool)
    → AreDistinct (keys m)
    → AreDistinct (keys (insert k true m))
unfolding insert
insert-AreDistinct k [] d = (refl, tt)
insert-AreDistinct k ((j, v) ∷ m) (fresh, d) = elim (Bool-cases (j == k)) [
  | inl same ↦
      rw same (subst (λ q. includes q (keys m) ≡ false) ((string_eq.same_iff j k).0 same) fresh, d)
  | inr other ↦ rw other (
    includes-insert j k m
        ∙ (let apart : (k == j) ≡ false =
              ==_ne k j
                (λ e. let yes : (j == k) ≡ true = (string_eq.same_iff j k).1 (sym e) in cc) in
            rw apart fresh),
    insert-AreDistinct k m d,
  )
]

includes-collect_values :
    (p : String) (m : Dict String Directive) (packages : Dict String Bool)
    → includes p (keys (collect_values m packages)) ≡ (needs p m || includes p (keys packages))
includes-collect_values p [] packages = refl
includes-collect_values p ((k, d) ∷ m) packages =
    let rest = includes-collect_values p m packages in
    elim (Bool-cases (d.directive_type == aggregate)) [
      | inl skipped ↦ rw skipped rest
      | inr kept ↦
          rw kept
            (includes-insert p d.package_path (collect_values m packages) ∙ (ground (arith, rest)))
    ]

collect_values-AreDistinct :
    (m : Dict String Directive) (packages : Dict String Bool)
    → AreDistinct (keys packages)
    → AreDistinct (keys (collect_values m packages))
collect_values-AreDistinct [] packages d = d
collect_values-AreDistinct ((k, x) ∷ m) packages d =
    let rest = collect_values-AreDistinct m packages d in
    elim (Bool-cases (x.directive_type == aggregate)) [
      | inl skipped ↦ rw skipped rest
      | inr kept ↦ rw kept (insert-AreDistinct x.package_path (collect_values m packages) rest)
    ]

module _ (located : LocatedDirectives) where
  pub unique_packages-includes :
      (p : String) → includes p (map (λ e. e.0) (unique_packages located)) ≡ needs_package located p
  unique_packages-includes p =
      includes-collect_values p located.state_events _
      ∙ ap (λ b. needs p located.state_events || b)
          (includes-collect_values p located.events _
            ∙ ap (λ b. needs p located.events || b)
                (includes-collect_values p located.aggregates [] ∙ ground arith))

  pub unique_packages-AreDistinct : AreDistinct (map (λ e. e.0) (unique_packages located))
  unique_packages-AreDistinct = collect_values-AreDistinct located.state_events _ (
      collect_values-AreDistinct located.events _
        (collect_values-AreDistinct located.aggregates [] tt))
